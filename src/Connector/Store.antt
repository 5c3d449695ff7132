-- ===== src/Connector/Store.antt =====
-- ModBitcoinConnector.cpp: what the node knows, in its cache and its database. The server of the database and
-- the hash function are parameters. The database is open: `reload` opens it, before any client is there.
pub mod Blocks
pub mod Cache
pub mod Tables
use pinetd.Prelude.{
  ℕ, zero, suc, ◌+◌, ◌-◌, ◌*◌, ◌/◌, ◌%◌, ◌^◌, ltb, ◌==◌, ◌||◌, ◌&&◌, not, if◌then◌else◌, Option,
  none, some, List, [], ◌∷◌, ◌++◌, Bool, true, false, Bytes, codes, number, length, take, Dict,
  find, has_key, remove,
}
use pinetd.Prelude.Fault.{◌>>=◌}
use pinetd.Prelude.Base64.{to_base64, from_base64}
use pinetd.DataStream.{le_bytes}
use pinetd.Bitcoin.Tx.{TxIn, TxOut, Tx, tx_of_data, get_tx_out_addr}
use pinetd.Bitcoin.Block.{Block, null_block, block_of_data, get_transactions, to_hex}
use pinetd.ElasticSearch.{
  Object, Json, Server, empty, boolean, double, string, object, value, contains_key, object_of,
  to_object, to_string, to_double, first_item, contains, get, index, search,
}

-- A QCache of 100 entries, the one that was used last first.
unfoldable pub cache_insert : Bytes → Bytes → Dict Bytes → Dict Bytes
cache_insert k v m = take 100 ((k, v) ∷ remove k m)

-- `object(k)`: the entry, which is used by that.
unfoldable pub use_entry : Bytes → Option Bytes → Dict Bytes → Option Bytes × Dict Bytes
use_entry k none m = (none, m)
use_entry k (some v) m = (some v, (k, v) ∷ remove k m)

unfoldable pub cache_object : Bytes → Dict Bytes → Option Bytes × Dict Bytes
unfolding use_entry
cache_object k m = use_entry k (find k m) m

pub record Store (S : Type 0) : Type 0 where
  pub inventory_cache : Dict Bytes
  pub inventory_queue : List Bytes
  pub db : S

-- The key of both containers: the type, then the hash.
unfoldable pub inventory_key : ℕ → Bytes → Bytes
inventory_key type hash = le_bytes 4 type ++ hash

abbrev pub bitcoin : Bytes
bitcoin = codes "bitcoin"

-- A number of at most 64 bits as a double: the nearest of 53 bits, the even one of two.
unfoldable pub round_off : ℕ → ℕ → ℕ
round_off zero x = x
round_off (suc k) x =
    let q = x / 2 ^ suc k in
    let r = x % 2 ^ suc k in
    (if ltb (2 ^ k) r || (r == 2 ^ k && q % 2 == 1) then q + 1 else q) * 2 ^ suc k

unfoldable pub excess_bits : ℕ → ℕ → ℕ
excess_bits zero x = 0
excess_bits (suc fuel) x = let k = excess_bits fuel (x / 2) in if ltb x (2 ^ 53) then 0 else suc k

-- `QJSONVALUE_CAST_LARGEINT`
unfoldable pub large_int : ℕ → Json
unfolding round_off excess_bits
large_int x = double (round_off (excess_bits 11 x) x)

-- The documents that are stored.
unfoldable pub tx_in_doc : Bytes → ℕ → TxIn → Object
unfolding object_of large_int to_hex number
tx_in_doc hash i x =
    object_of
      ((codes "hash_n", string (to_hex hash ++ (codes ":" ++ number (suc i) i)))
        ∷ (codes "hash", string (to_hex hash))
        ∷ (codes "n", double i)
        ∷ (codes "prev_out_hash", string (to_hex x.prev_out_hash))
        ∷ (codes "prev_out_n", large_int x.prev_out_index)
        ∷ [])
      empty

unfoldable pub tx_out_doc : Bytes → ℕ → TxOut → Object
unfolding object_of large_int to_hex number get_tx_out_addr
tx_out_doc hash i x =
    object_of
      ((codes "hash_n", string (to_hex hash ++ (codes ":" ++ number (suc i) i)))
        ∷ (codes "hash", string (to_hex hash))
        ∷ (codes "n", double i)
        ∷ (codes "value", large_int x.value)
        ∷ (codes "claimed", boolean false)
        ∷ (codes "addr", string (to_hex (get_tx_out_addr x.script)))
        ∷ [])
      empty

unfoldable pub tx_doc : Bytes → Bytes → Tx → Object
unfolding object_of large_int to_hex to_base64
tx_doc hash dat tx =
    object_of
      ((codes "hash", string (to_hex hash))
        ∷ (codes "version", large_int tx.version)
        ∷ (codes "lock_time", large_int tx.lock_time)
        ∷ (codes "size", double (length dat))
        ∷ (codes "raw_data", string (to_base64 dat))
        ∷ [])
      empty

unfoldable pub block_tx_doc : Bytes → Bytes → ℕ → Object
unfolding object_of to_hex
block_tx_doc block tx i =
    object_of
      ((codes "block_tx", string (to_hex block ++ to_hex tx))
        ∷ (codes "block", string (to_hex block))
        ∷ (codes "tx", string (to_hex tx))
        ∷ (codes "index", double i)
        ∷ [])
      empty

unfoldable pub block_doc : Block → Object
unfolding object_of large_int to_hex to_base64
block_doc b =
    object_of
      ((codes "hash", string (to_hex b.hash))
        ∷ (codes "parent", string (to_hex b.parent))
        ∷ (codes "depth", large_int b.height)
        ∷ (codes "version", large_int b.version)
        ∷ (codes "mrkl_root", string (to_hex b.merkle_root))
        ∷ (codes "time", large_int b.timestamp)
        ∷ (codes "bits", large_int b.bits)
        ∷ (codes "nonce", large_int b.nonce)
        ∷ (codes "size", large_int b.size)
        ∷ (codes "raw_header", string (to_base64 b.raw))
        ∷ [])
      empty

module _ {S : Type 0} (server : Server S) where
  -- `knows`
  unfoldable pub knows : ℕ → Bytes → Store S → Bool
  unfolding inventory_key to_hex contains
  knows type hash st =
      if has_key (inventory_key type hash) st.inventory_cache
      then true
      else if type == 1
      then contains server (to_hex hash) bitcoin (codes "tx") st.db
      else if type == 2
      then contains server (to_hex hash) bitcoin (codes "block") st.db
      else false

  -- A transaction of the database, which is put in the cache.
  unfoldable pub load_tx : Bytes → Store S → Bytes × Store S
  unfolding inventory_key to_hex get cache_insert contains_key to_string value from_base64
  load_tx hash st =
      let obj = get server (to_hex hash) bitcoin (codes "tx") st.db in
      let res = from_base64 (to_string (value (codes "raw_data") obj)) in
      if not (contains_key (codes "raw_data") obj) then ([], st) else (
        res,
        record st { inventory_cache = cache_insert (inventory_key 1 hash) res st.inventory_cache },
      )

  -- `getInventory`, with what the cache gave, and whole.
  unfoldable pub if_cached : Option Bytes → Dict Bytes → ℕ → Bytes → Store S → Bytes × Store S
  unfolding load_tx
  if_cached (some v) cache type hash st = (v, record st { inventory_cache = cache })
  if_cached none cache type hash st = if type == 1 then load_tx hash st else ([], st)

  unfoldable pub get_inventory : ℕ → Bytes → Store S → Bytes × Store S
  unfolding inventory_key cache_object if_cached
  get_inventory type hash st =
      let (o, cache) = cache_object (inventory_key type hash) st.inventory_cache in
      if_cached o cache type hash st

  -- The loops of `addInventory` over the inputs and the outputs.
  unfoldable pub index_tx_in : Bytes → ℕ → List TxIn → S → S
  unfolding tx_in_doc index
  index_tx_in hash i [] s = s
  index_tx_in hash i (x ∷ xs) s =
      index_tx_in hash (suc i) xs (index server (tx_in_doc hash i x) bitcoin (codes "tx_in") s).1

  unfoldable pub index_tx_out : Bytes → ℕ → List TxOut → S → S
  unfolding tx_out_doc index
  index_tx_out hash i [] s = s
  index_tx_out hash i (x ∷ xs) s =
      index_tx_out hash (suc i) xs (index server (tx_out_doc hash i x) bitcoin (codes "tx_out") s).1

  -- What `addInventory` stores of a transaction.
  unfoldable pub index_tx : Bytes → Bytes → S → S
  unfolding index_tx_in index_tx_out tx_doc tx_of_data index
  index_tx hash dat s =
      let tx = tx_of_data dat in
      (index server (tx_doc hash dat tx) bitcoin (codes "tx")
        (index_tx_out hash 0 tx.tx_out (index_tx_in hash 0 tx.tx_in s))).1

  -- `addInventory`: it aborts the process if it is given a block.
  unfoldable pub add_inventory : ℕ → Bytes → Bytes → Bool → Store S → Option (Store S)
  unfolding inventory_key cache_insert index_tx
  add_inventory type hash dat send_inv st =
      let st' : Store S = record {
        inventory_cache = cache_insert (inventory_key type hash) dat st.inventory_cache;
        inventory_queue =
            if send_inv
            then st.inventory_queue ++ (inventory_key type hash ∷ [])
            else st.inventory_queue;
        db = if type == 1 then index_tx hash dat st.db else st.db;
      } in
      if type == 2 then none else some st'

-- `sendQueuedInventory`, with the count and the keys of the signal `newInventory`, if it is sent.
unfoldable pub concat : List Bytes → Bytes
concat [] = []
concat (k ∷ ks) = k ++ concat ks

unfoldable pub send_queued_inventory : {S : Type 0} → Store S → Option (ℕ × Bytes) × Store S
unfolding concat
send_queued_inventory st = elim st.inventory_queue [
  | [] ↦ (none, st)
  | k ∷ ks ↦ (some (length (k ∷ ks), concat (k ∷ ks)), record st { inventory_queue = [] })
]
