-- ===== src/Bitcoin/Block/Header.antt =====
-- BitcoinBlock: a block that is built from its wire form.
use pinetd.Prelude.{
  ℕ, ◌+◌, ◌%◌, ◌^◌, ◌<◌, ◌≡◌, refl, ltb, List, [], ◌∷◌, ◌++◌, true, false, length, Bytes, arith,
  append-nil, All, length-append, take-append, drop-append,
}
use pinetd.DataStream.{le_bytes, read_le-le_bytes, length-le_bytes}
use pinetd.Bitcoin.Stream.{write_int}
use pinetd.Bitcoin.Stream.RoundTrip.{read_int-write_int, read_data-append, write_int_nonempty}
use pinetd.Bitcoin.Tx.{Tx, read_tx, is_empty, generate_all, generate_stream, uncache, double_sha256}
use pinetd.Bitcoin.Tx.Fields.{read_many-generate_all}
use pinetd.Bitcoin.Tx.RoundTrip.{TxFits, read_tx-generate_stream}
use pinetd.Bitcoin.Block.{Block, read_header, block_of_data, get_transactions}

-- The fields of a header that the wire carries.
pub record HeaderFits (version : ℕ) (parent merkle_root : Bytes) (timestamp bits nonce : ℕ)
    : Type 0 where
  pub version_u32 : version < 2 ^ 32
  pub parent_size : length parent ≡ 32
  pub merkle_size : length merkle_root ≡ 32
  pub timestamp_u32 : timestamp < 2 ^ 32
  pub bits_u32 : bits < 2 ^ 32
  pub nonce_u32 : nonce < 2 ^ 32

-- The 80 bytes of a header, in the order of the protocol.
abbrev pub header : ℕ → Bytes → Bytes → ℕ → ℕ → ℕ → Bytes
header version parent merkle_root timestamp bits nonce =
    le_bytes 4 version
    ++ (parent ++ (merkle_root ++ (le_bytes 4 timestamp ++ (le_bytes 4 bits ++ le_bytes 4 nonce))))

module _ (version : ℕ) (parent merkle_root : Bytes) (timestamp bits nonce : ℕ)
    (h : HeaderFits version parent merkle_root timestamp bits nonce) where
  length-header : length (header version parent merkle_root timestamp bits nonce) ≡ 80
  length-header = omega (
    arith,
    h.parent_size,
    h.merkle_size,
    length-append (le_bytes 4 version) (
        parent ++ (merkle_root ++ (le_bytes 4 timestamp ++ (le_bytes 4 bits ++ le_bytes 4 nonce)))),
    length-append parent
        (merkle_root ++ (le_bytes 4 timestamp ++ (le_bytes 4 bits ++ le_bytes 4 nonce))),
    length-append merkle_root (le_bytes 4 timestamp ++ (le_bytes 4 bits ++ le_bytes 4 nonce)),
    length-append (le_bytes 4 timestamp) (le_bytes 4 bits ++ le_bytes 4 nonce),
    length-append (le_bytes 4 bits) (le_bytes 4 nonce),
    length-le_bytes 4 version,
    length-le_bytes 4 timestamp,
    length-le_bytes 4 bits,
    length-le_bytes 4 nonce,
  )

  read_header-header :
      read_header (header version parent merkle_root timestamp bits nonce)
      ≡ ((version, parent, merkle_root, timestamp, bits, nonce), [])
  unfolding read_header
  read_header-header =
      let last = rw append-nil at (read_le-le_bytes 4 nonce [] h.nonce_u32) in
      let numbers = le_bytes 4 timestamp ++ (le_bytes 4 bits ++ le_bytes 4 nonce) in
      simp (
        read_le-le_bytes 4 version (parent ++ (merkle_root ++ numbers)) h.version_u32,
        read_data-append 32 parent (merkle_root ++ numbers) h.parent_size (omega arith),
        read_data-append 32 merkle_root numbers h.merkle_size (omega arith),
        read_le-le_bytes 4 timestamp (le_bytes 4 bits ++ le_bytes 4 nonce) h.timestamp_u32,
        read_le-le_bytes 4 bits (le_bytes 4 nonce) h.bits_u32,
        last,
      )

  -- A block built from a header's bytes and whatever follows them has the header's fields, the hash
  -- of exactly the 80 bytes, and what follows as its transactions.
  pub block_of_data-header :
      (sha256 : Bytes → Bytes) (b : ℕ) (body : Bytes) (height : ℕ)
      → block_of_data sha256
          (header version parent merkle_root timestamp bits nonce ++ (b ∷ body))
          height
        ≡ record {
          is_valid = true;
          hash = double_sha256 sha256 (header version parent merkle_root timestamp bits nonce);
          parent = parent;
          merkle_root = merkle_root;
          raw = header version parent merkle_root timestamp bits nonce;
          txns = b ∷ body;
          version = version;
          timestamp = timestamp;
          bits = bits;
          nonce = nonce;
          height = height;
          size = (length body + 81) % 2 ^ 32;
        }
  unfolding block_of_data
  block_of_data-header sha256 b body height =
      let head = header version parent merkle_root timestamp bits nonce in
      let size : length (head ++ (b ∷ body)) ≡ length body + 81 =
        omega (arith, length-append head (b ∷ body), length-header) in
      let longer : ltb 80 (length body + 81) ≡ true = ground arith in
      rw (
        size,
        take-append 80 head (b ∷ body) length-header,
        drop-append 80 head (b ∷ body) length-header,
        read_header-header,
        longer,
      )

-- A transaction that fits, and that no cached bytes come with.
abbrev pub IsPlain : Tx → Type 0
IsPlain t = TxFits t × (t.raw ≡ [])

read_plain : (t : Tx) (rest : Bytes) → IsPlain t → read_tx (generate_stream t ++ rest) ≡ (t, rest)
unfolding uncache
read_plain t rest h = ground (arith, read_tx-generate_stream t rest h.0)

nonempty-append : (xs ys : Bytes) → 0 < length xs → is_empty (xs ++ ys) ≡ false
unfolding is_empty
nonempty-append [] ys h = absurd (omega arith)
nonempty-append (x ∷ xs) ys h = refl

-- `getTransactions` returns the transactions whose count and printed forms are a block's body.
pub get_transactions-generate_all :
    (b : Block) (txs : List Tx)
    → All IsPlain txs
    → length txs < 2 ^ 64
    → b.txns ≡ write_int (length txs) ++ generate_all generate_stream txs
    → get_transactions b ≡ txs
unfolding get_transactions
get_transactions-generate_all b txs h n e =
    let many =
      rw append-nil at
        (read_many-generate_all IsPlain read_tx generate_stream read_plain txs [] h) in
    rw (
      e,
      nonempty-append (write_int (length txs)) (generate_all generate_stream txs)
          (write_int_nonempty (length txs)),
      read_int-write_int (length txs) (generate_all generate_stream txs) n,
      many,
    )
