-- ===== src/Bitcoin/Tx.antt =====
-- mod/ext/bitcoin/BitcoinTx.cpp and include/ext/BitcoinTx.hpp: transactions, their parser and
-- their printer, and the cache of the raw bytes. BitcoinCrypto.cpp's double SHA-256 is here too:
-- the hash function itself (QCryptographicHash) is the parameter `sha256`.
pub mod Fields
pub mod RoundTrip
pub mod Address
use pinetd.Prelude.{
  ℕ, zero, suc, ◌==◌, ◌-◌, not, List, [], ◌∷◌, ◌++◌, Bool, true, false, if◌then◌else◌, length, take,
  drop, slice, Bytes, bytes_eq,
}
use pinetd.DataStream.{Reader, ◌>>=◌, pure, le_bytes, read_le}
use pinetd.Bitcoin.Stream.{write_int, write_string, write_data, read_int, read_data, read_string}

-- `BitcoinTxScript`
pub record TxScript : Type 0 where
  pub script : Bytes

-- `BitcoinTxOut`
pub record TxOut : Type 0 where
  pub value : ℕ
  pub script : TxScript

-- `BitcoinTxIn`
pub record TxIn : Type 0 where
  pub prev_out_hash : Bytes
  pub prev_out_index : ℕ
  pub script : TxScript
  pub sequence : ℕ

-- `BitcoinTx`
pub record Tx : Type 0 where
  pub is_valid : Bool
  pub raw : Bytes
  pub version : ℕ
  pub tx_out : List TxOut
  pub tx_in : List TxIn
  pub lock_time : ℕ

unfoldable pub generate_script : TxScript → Bytes
generate_script s = write_string s.script

unfoldable pub generate_tx_in : TxIn → Bytes
unfolding generate_script
generate_tx_in i =
    write_data i.prev_out_hash
    ++ (le_bytes 4 i.prev_out_index ++ (generate_script i.script ++ le_bytes 4 i.sequence))

unfoldable pub generate_tx_out : TxOut → Bytes
unfolding generate_script
generate_tx_out o = le_bytes 8 o.value ++ generate_script o.script

-- The two loops that write the inputs and the outputs.
unfoldable pub generate_all : {A : Type 0} → (A → Bytes) → List A → Bytes
generate_all f [] = []
generate_all f (x ∷ xs) = f x ++ generate_all f xs

-- `BitcoinTx::generate(QDataStream&)`: what it appends to the stream.
unfoldable pub generate_stream : Tx → Bytes
generate_stream t =
    if not t.is_valid
    then []
    else le_bytes 4 t.version
      ++ (write_int (length t.tx_in)
          ++ (generate_all generate_tx_in t.tx_in
              ++ (write_int (length t.tx_out)
                  ++ (generate_all generate_tx_out t.tx_out ++ le_bytes 4 t.lock_time))))

-- `BitcoinTx::uncache`
unfoldable pub uncache : Tx → Tx
uncache t = record t { raw = [] }

unfoldable pub is_empty : Bytes → Bool
is_empty [] = true
is_empty (b ∷ bs) = false

-- `BitcoinTx::generate()`: the cached bytes, or the generated ones, which are then cached.
unfoldable pub generate : Tx → Bytes × Tx
unfolding is_empty
generate t =
    if not (is_empty t.raw)
    then (t.raw, t)
    else if not t.is_valid
    then (t.raw, t)
    else (generate_stream t, record t { raw = generate_stream t })

-- `BitcoinTxIn::BitcoinTxIn(QDataStream&)`
unfoldable pub read_tx_in : Reader TxIn
read_tx_in = do
  prev_out_hash ← read_data 32
  prev_out_index ← read_le 4
  script ← read_string
  sequence ← read_le 4
  pure (record {
    prev_out_hash = prev_out_hash;
    prev_out_index = prev_out_index;
    script = record { script = script };
    sequence = sequence;
  })

-- `BitcoinTxOut::BitcoinTxOut(QDataStream&)`
unfoldable pub read_tx_out : Reader TxOut
read_tx_out = do
  value ← read_le 8
  script ← read_string
  pure (record { value = value; script = record { script = script } })

-- `for(i = 0; i < tmp; i++) list.append(T(stream))`
unfoldable pub read_many : {A : Type 0} → Reader A → ℕ → Reader (List A)
read_many r zero s = ([], s)
read_many r (suc n) s = let (x, s') = r s in let (xs, s'') = read_many r n s' in (x ∷ xs, s'')

-- `BitcoinTx::parseStream`, on a transaction whose lists are still empty.
unfoldable pub parse_stream : Bytes → Reader Tx
parse_stream raw = do
  version ← read_le 4
  n ← read_int
  tx_in ← read_many read_tx_in n
  m ← read_int
  tx_out ← read_many read_tx_out m
  lock_time ← read_le 4
  pure (record {
    is_valid = true;
    raw = raw;
    version = version;
    tx_out = tx_out;
    tx_in = tx_in;
    lock_time = lock_time;
  })

-- `BitcoinTx::BitcoinTx()`; the version and the lock time are left uninitialised.
unfoldable pub null_tx : ℕ → ℕ → Tx
null_tx version lock_time = record {
  is_valid = false;
  raw = [];
  version = version;
  tx_out = [];
  tx_in = [];
  lock_time = lock_time;
}

-- `BitcoinTx::BitcoinTx(QDataStream&)`
unfoldable pub read_tx : Reader Tx
read_tx = parse_stream []

-- `BitcoinTx::BitcoinTx(const QByteArray&)`
unfoldable pub tx_of_data : Bytes → Tx
tx_of_data bytes = (parse_stream bytes bytes).0

-- `BitcoinCrypto::doubleSha256`
unfoldable pub double_sha256 : (Bytes → Bytes) → Bytes → Bytes
double_sha256 sha256 input = sha256 (sha256 input)

-- `BitcoinTx::hash`, with the transaction that it leaves (its bytes cached).
unfoldable pub hash : (Bytes → Bytes) → Tx → Bytes × Tx
hash sha256 t = let (bytes, t') = generate t in (double_sha256 sha256 bytes, t')

-- `right(n)`
abbrev right : ℕ → Bytes → Bytes
right n xs = drop (length xs - n) xs

-- `BitcoinTxScript::getTxOutAddr`
unfoldable pub get_tx_out_addr : TxScript → Bytes
get_tx_out_addr s =
    if length s.script == 21
    then if not (bytes_eq (take 3 s.script) (0x76 ∷ 0xa9 ∷ 0x10 ∷ []))
      then []
      else if not (bytes_eq (right 2 s.script) (0x88 ∷ 0xac ∷ []))
      then []
      else slice 3 16 s.script
    else []
