-- ===== src/Bitcoin/Tx/Fields.antt =====
-- BitcoinTx: the parts of a transaction through their printers and their parsers.
use pinetd.Prelude.{
  ◌^◌, ◌<◌, ◌≡◌, refl, List, [], ◌∷◌, ◌++◌, length, Bytes, arith, append_assoc, All,
}
use pinetd.DataStream.{Reader, le_bytes, read_le-le_bytes}
use pinetd.Bitcoin.Stream.{write_string}
use pinetd.Bitcoin.Stream.RoundTrip.{read_data-append, read_string-write_string}
use pinetd.Bitcoin.Tx.{
  TxIn, TxOut, generate_tx_in, generate_tx_out, generate_all, read_tx_in, read_tx_out, read_many,
}

-- The ranges of the C++ fields, and a hash of 32 bytes.
pub record TxInFits (i : TxIn) : Type 0 where
  pub hash_size : length i.prev_out_hash ≡ 32
  pub index_u32 : i.prev_out_index < 2 ^ 32
  pub script_size : length (i.script).script < 2 ^ 31
  pub sequence_u32 : i.sequence < 2 ^ 32

pub record TxOutFits (o : TxOut) : Type 0 where
  pub value_u64 : o.value < 2 ^ 64
  pub script_size : length (o.script).script < 2 ^ 31

pub read_tx_in-generate :
    (i : TxIn) (rest : Bytes) → TxInFits i → read_tx_in (generate_tx_in i ++ rest) ≡ (i, rest)
unfolding read_tx_in generate_tx_in
read_tx_in-generate i rest h = simp (
  append_assoc,
  read_data-append 32 i.prev_out_hash
      (le_bytes 4 i.prev_out_index
        ++ (write_string (i.script).script ++ (le_bytes 4 i.sequence ++ rest)))
      h.hash_size (omega arith),
  read_le-le_bytes 4 i.prev_out_index
      (write_string (i.script).script ++ (le_bytes 4 i.sequence ++ rest)) h.index_u32,
  read_string-write_string (i.script).script (le_bytes 4 i.sequence ++ rest) h.script_size,
  read_le-le_bytes 4 i.sequence rest h.sequence_u32,
)

pub read_tx_out-generate :
    (o : TxOut) (rest : Bytes) → TxOutFits o → read_tx_out (generate_tx_out o ++ rest) ≡ (o, rest)
unfolding read_tx_out generate_tx_out
read_tx_out-generate o rest h = simp (
  append_assoc,
  read_le-le_bytes 8 o.value (write_string (o.script).script ++ rest) h.value_u64,
  read_string-write_string (o.script).script rest h.script_size,
)

pub read_many-generate_all :
    {A : Type 0} (Fits : A → Type 0) (r : Reader A) (f : A → Bytes)
    → ((x : A) (rest : Bytes) → Fits x → r (f x ++ rest) ≡ (x, rest))
    → (xs : List A) (rest : Bytes) → All Fits xs
    → read_many r (length xs) (generate_all f xs ++ rest) ≡ (xs, rest)
unfolding read_many generate_all
read_many-generate_all Fits r f law [] rest h = refl
read_many-generate_all Fits r f law (x ∷ xs) rest h = simp (
  append_assoc,
  law x (generate_all f xs ++ rest) h.0,
  read_many-generate_all Fits r f law xs rest h.1,
)
