-- ===== src/Bitcoin/Block.antt =====
-- mod/ext/bitcoin/BitcoinBlock.cpp: a block's 80-byte header, and the transactions behind it.
pub mod Header
pub mod Hex
use pinetd.Prelude.{
  ℕ, zero, suc, ◌+◌, ◌/◌, ◌%◌, ◌^◌, ltb, List, [], ◌∷◌, ◌++◌, Bool, true, false, if◌then◌else◌,
  length, take, drop, Bytes,
}
use mathlib.Core.List.{reverse}
use pinetd.DataStream.{Reader, ◌>>=◌, pure, read_le}
use pinetd.Bitcoin.Stream.{read_int, read_data}
use pinetd.Bitcoin.Tx.{Tx, read_many, read_tx, is_empty, double_sha256}

-- `BitcoinBlock`
pub record Block : Type 0 where
  pub is_valid : Bool
  pub hash : Bytes
  pub parent : Bytes
  pub merkle_root : Bytes
  pub raw : Bytes
  pub txns : Bytes
  pub version : ℕ
  pub timestamp : ℕ
  pub bits : ℕ
  pub nonce : ℕ
  pub height : ℕ
  pub size : ℕ

-- `BitcoinBlock::BitcoinBlock()`; its numbers are left uninitialised, as in the argument.
unfoldable pub null_block : Block → Block
null_block junk = record junk {
  is_valid = false;
  hash = [];
  parent = [];
  merkle_root = [];
  raw = [];
  txns = [];
}

-- The reads of `BitcoinBlock::BitcoinBlock(const QByteArray&, quint32)`.
unfoldable pub read_header : Reader (ℕ × Bytes × Bytes × ℕ × ℕ × ℕ)
read_header = do
  version ← read_le 4
  parent ← read_data 32
  merkle_root ← read_data 32
  timestamp ← read_le 4
  bits ← read_le 4
  nonce ← read_le 4
  pure (version, parent, merkle_root, timestamp, bits, nonce)

-- `BitcoinBlock::BitcoinBlock(const QByteArray&, quint32)`
unfoldable pub block_of_data : (Bytes → Bytes) → Bytes → ℕ → Block
block_of_data sha256 bytes height =
    let ((version, parent, merkle_root, timestamp, bits, nonce), rest) =
      read_header (take 80 bytes) in
    record {
      is_valid = true;
      hash = double_sha256 sha256 (take 80 bytes);
      parent = parent;
      merkle_root = merkle_root;
      raw = take 80 bytes;
      txns = if ltb 80 (length bytes) then drop 80 bytes else [];
      version = version;
      timestamp = timestamp;
      bits = bits;
      nonce = nonce;
      height = height;
      size = length bytes % 2 ^ 32;
    }

-- `setHeight`
unfoldable pub set_height : ℕ → Block → Block
set_height h b = record b { height = h }

-- `getTransactions`
unfoldable pub get_transactions : Block → List Tx
get_transactions b =
    if is_empty b.txns
    then []
    else (let (count, s) = read_int b.txns in (read_many read_tx count s).0)

unfoldable pub hex_digit : ℕ → ℕ
hex_digit n = if ltb n 10 then 48 + n else 87 + n

-- `QByteArray::toHex`
unfoldable pub to_hex : Bytes → Bytes
unfolding hex_digit
to_hex [] = []
to_hex (b ∷ bs) = hex_digit (b / 16) ∷ hex_digit (b % 16) ∷ to_hex bs

-- `getHexHash`: the loop appends the bytes from the last to the first.
unfoldable pub get_hex_hash : Block → Bytes
unfolding to_hex
get_hex_hash b = to_hex (reverse b.hash)
