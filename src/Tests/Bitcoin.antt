-- ===== src/Tests/Bitcoin.antt =====
-- Runs of mod/ext/bitcoin.
use pinetd.Prelude.{◌≡◌, ◌↔◌, refl, [], ◌∷◌, ◌++◌, true, Bytes, length, replicate, take, arith}
use pinetd.DataStream.{le_bytes, be_bytes, le_value}
use pinetd.Bitcoin.Stream.{write_int}
use pinetd.Bitcoin.Tx.{
  Tx, TxIn, TxOut, read_tx, generate_stream, uncache, get_tx_out_addr, double_sha256,
}
use pinetd.Bitcoin.Tx.RoundTrip.{read_tx-generate_stream, TxFits}
use pinetd.Bitcoin.Tx.Address.{pay_to, get_tx_out_addr_iff}
use pinetd.Bitcoin.NetAddr.{null_addr, ipv4, any, of_host, of_bin, get_bin, write_address}
use pinetd.Bitcoin.NetAddr.Wire.{of_bin-get_bin_ipv4, write_address-written}
use pinetd.Bitcoin.Block.{block_of_data}
use pinetd.Bitcoin.Block.Header.{header, block_of_data-header}

write_int_300 : write_int 300 ≡ 253 ∷ 44 ∷ 1 ∷ []
unfolding write_int le_bytes
write_int_300 = refl

abbrev spend : TxIn
spend = record {
  prev_out_hash = replicate 32 7;
  prev_out_index = 1;
  script = record { script = 5 ∷ 6 ∷ [] };
  sequence = 0xffffffff;
}

abbrev pay : TxOut
pay = record { value = 5000; script = record { script = pay_to (replicate 16 3) } }

abbrev tx : Tx
tx = record {
  is_valid = true;
  raw = [];
  version = 1;
  tx_out = pay ∷ [];
  tx_in = spend ∷ [];
  lock_time = 0;
}

tx-TxFits : TxFits tx
tx-TxFits = record {
  valid = refl;
  version_u32 = omega arith;
  ins = (omega arith, tt);
  in_count = omega arith;
  outs = (omega arith, tt);
  out_count = omega arith;
  lock_time_u32 = omega arith;
}

read_tx-generate_stream_example : read_tx (generate_stream tx ++ (1 ∷ [])) ≡ (uncache tx, 1 ∷ [])
read_tx-generate_stream_example = read_tx-generate_stream tx (1 ∷ []) tx-TxFits

-- A stand-in for the hash: the first 32 bytes.
abbrev cut : Bytes → Bytes
cut bs = take 32 bs

get_tx_out_addr_iff_example :
    (get_tx_out_addr (pay.script) ≡ replicate 16 3)
    ↔ ((pay.script).script ≡ pay_to (replicate 16 3))
get_tx_out_addr_iff_example = get_tx_out_addr_iff (pay.script) (replicate 16 3) refl

-- 127.0.0.1 comes back as 1.0.0.127.
of_bin-get_bin_ipv4_example :
    of_bin 0 0 (get_bin (of_host (ipv4 0x7f000001) 8333 1))
    ≡ record (of_host (ipv4 0x7f000001) 8333 1) { addr = ipv4 0x0100007f }
unfolding be_bytes le_bytes le_value
of_bin-get_bin_ipv4_example = of_bin-get_bin_ipv4 0x7f000001 8333 1 0 0 (omega arith) (omega arith)

-- The dual-stack "any" address.
write_address-written_example :
    (write_address null_addr ≡ replicate 26 0)
    × (write_address (of_host any 8333 1) ≡ 1 ∷ 0 ∷ 0 ∷ 0 ∷ 0 ∷ 0 ∷ 0 ∷ 0 ∷ 0x20 ∷ 0x8d ∷ [])
    × (length (write_address (of_host any 8333 1)) ≡ 10)
unfolding le_bytes be_bytes null_addr
write_address-written_example = write_address-written null_addr any 8333 1 refl (λ bs e. cc)

block_of_data-header_example :
    block_of_data cut (header 1 (replicate 32 2) (replicate 32 3) 4 5 6 ++ (0 ∷ [])) 7 ≡ record {
      is_valid = true;
      hash = double_sha256 cut (header 1 (replicate 32 2) (replicate 32 3) 4 5 6);
      parent = replicate 32 2;
      merkle_root = replicate 32 3;
      raw = header 1 (replicate 32 2) (replicate 32 3) 4 5 6;
      txns = 0 ∷ [];
      version = 1;
      timestamp = 4;
      bits = 5;
      nonce = 6;
      height = 7;
      size = 81;
    }
block_of_data-header_example =
    block_of_data-header 1 (replicate 32 2) (replicate 32 3) 4 5 6
      (record {
        version_u32 = omega arith;
        parent_size = refl;
        merkle_size = refl;
        timestamp_u32 = omega arith;
        bits_u32 = omega arith;
        nonce_u32 = omega arith;
      })
      cut 0 [] 7
