-- ===== src/Bitcoin/Tx/RoundTrip.antt =====
-- BitcoinTx: whole transactions through their printer and their parser.
use pinetd.Prelude.{
  ◌^◌, ◌<◌, ◌≡◌, refl, sym, ap, [], ◌∷◌, ◌++◌, true, length, Bytes, arith, append_assoc, append-nil,
  All,
}
use pinetd.DataStream.{le_bytes, read_le-le_bytes}
use pinetd.Bitcoin.Stream.{write_int}
use pinetd.Bitcoin.Stream.RoundTrip.{read_int-write_int}
use pinetd.Bitcoin.Tx.{
  Tx, generate_tx_in, generate_tx_out, generate_all, generate_stream, generate, uncache, read_tx_in,
  read_tx_out, parse_stream, read_tx, tx_of_data, hash, is_empty,
}
use pinetd.Bitcoin.Tx.Fields.{
  TxInFits, TxOutFits, read_tx_in-generate, read_tx_out-generate, read_many-generate_all,
}

-- A valid transaction whose fields are in the ranges of their C++ types.
pub record TxFits (t : Tx) : Type 0 where
  pub valid : t.is_valid ≡ true
  pub version_u32 : t.version < 2 ^ 32
  pub ins : All TxInFits t.tx_in
  pub in_count : length t.tx_in < 2 ^ 64
  pub outs : All TxOutFits t.tx_out
  pub out_count : length t.tx_out < 2 ^ 64
  pub lock_time_u32 : t.lock_time < 2 ^ 32

-- The parser takes exactly the printed bytes and rebuilds the fields.
parse_stream-generate_stream :
    (raw : Bytes) (t : Tx) (rest : Bytes)
    → TxFits t
    → parse_stream raw (generate_stream t ++ rest) ≡ (record t { raw = raw }, rest)
unfolding parse_stream generate_stream
parse_stream-generate_stream raw t rest h =
    let tail = le_bytes 4 t.lock_time ++ rest in
    let outs = write_int (length t.tx_out) ++ (generate_all generate_tx_out t.tx_out ++ tail) in
    let ins = write_int (length t.tx_in) ++ (generate_all generate_tx_in t.tx_in ++ outs) in
    rw h.valid (
      simp (
        append_assoc,
        read_le-le_bytes 4 t.version ins h.version_u32,
        read_int-write_int (length t.tx_in) (generate_all generate_tx_in t.tx_in ++ outs)
            h.in_count,
        read_many-generate_all TxInFits read_tx_in generate_tx_in read_tx_in-generate t.tx_in outs
            h.ins,
        read_int-write_int (length t.tx_out) (generate_all generate_tx_out t.tx_out ++ tail)
            h.out_count,
        read_many-generate_all TxOutFits read_tx_out generate_tx_out read_tx_out-generate t.tx_out
            tail h.outs,
        read_le-le_bytes 4 t.lock_time rest h.lock_time_u32,
      ))

-- Whatever follows a printed transaction, the stream constructor rebuilds it without its cached
-- bytes and stops exactly behind it.
pub read_tx-generate_stream :
    (t : Tx) (rest : Bytes) → TxFits t → read_tx (generate_stream t ++ rest) ≡ (uncache t, rest)
unfolding read_tx uncache
read_tx-generate_stream t rest h = parse_stream-generate_stream [] t rest h

tx_of_data-generate_stream :
    (t : Tx) → TxFits t → tx_of_data (generate_stream t) ≡ record t { raw = generate_stream t }
unfolding tx_of_data
tx_of_data-generate_stream t h =
    rw (append-nil) at
      (ap (λ (p : Tx × Bytes). p.0) (parse_stream-generate_stream (generate_stream t) t [] h))

generate_stream-raw :
    (t : Tx) (raw : Bytes) → generate_stream (record t { raw = raw }) ≡ generate_stream t
unfolding generate_stream
generate_stream-raw t raw = refl

generate_uncached : (t : Tx) → TxFits t → (generate (uncache t)).0 ≡ generate_stream t
unfolding generate uncache is_empty
generate_uncached t h = ground (arith, generate_stream-raw t [])

generate_cached :
    (t : Tx) (raw : Bytes)
    → TxFits t
    → generate_stream t ≡ raw
    → (generate (record t { raw = raw })).0 ≡ generate_stream t
unfolding generate is_empty
generate_cached t [] h e = ground (arith, generate_stream-raw t [])
generate_cached t (b ∷ bs) h e = sym e

-- The bytes of a transaction that was built from its own printed form, and so its hash, are the
-- same from the cache and after `uncache`.
pub hash-uncache :
    (sha256 : Bytes → Bytes) (t : Tx)
    → TxFits t
    → (hash sha256 (tx_of_data (generate_stream t))).0 ≡ (hash sha256 (uncache t)).0
unfolding hash
hash-uncache sha256 t h = rw (
  tx_of_data-generate_stream t h,
  generate_cached t (generate_stream t) h refl,
  generate_uncached t h,
)
