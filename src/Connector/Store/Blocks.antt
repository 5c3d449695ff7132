-- ===== src/Connector/Store/Blocks.antt =====
-- ModBitcoinConnector.cpp: blocks, stored with their transactions and read from the database.
use pinetd.Prelude.{
  ℕ, suc, ◌%◌, ◌^◌, not, if◌then◌else◌, Option, some, List, [], ◌∷◌, ◌++◌, false, Bytes, codes,
}
use pinetd.Prelude.Fault.{◌>>=◌}
use pinetd.Prelude.Base64.{from_base64}
use pinetd.Bitcoin.Tx.{Tx, generate}
use pinetd.Bitcoin.Tx.{hash as tx_hash}
use pinetd.Bitcoin.Block.{Block, null_block, block_of_data, get_transactions, to_hex}
use pinetd.ElasticSearch.{
  Object, Server, empty, string, object, value, contains_key, object_of, to_object, to_string,
  to_double, first_item, get, index, search,
}
use pinetd.Connector.Store.{
  Store, bitcoin, inventory_key, cache_insert, large_int, knows, add_inventory, block_tx_doc,
  block_doc,
}

-- The query of `getBlockHeight`, and that of `getLastBlock`.
abbrev pub max_depth_query : Object
unfolding object_of
max_depth_query =
    let field_query = object_of ((codes "field", string (codes "block.depth")) ∷ []) empty in
    let stat_query = object_of ((codes "statistical", object field_query) ∷ []) empty in
    object_of
      ((codes "query", object (object_of ((codes "match_all", object empty) ∷ []) empty))
        ∷ (codes "facets", object (object_of ((codes "stat1", object stat_query) ∷ []) empty))
        ∷ [])
      empty

unfoldable pub depth_query : ℕ → Object
unfolding object_of large_int
depth_query height =
    let term = object_of ((codes "depth", large_int height) ∷ []) empty in
    let query = object_of ((codes "term", object term) ∷ []) empty in
    object_of ((codes "query", object query) ∷ []) empty

-- What a reading call asks of its surroundings: the server, the hash function, and the numbers that an
-- invalid block has, which are not initialised.
pub record World (S : Type 0) : Type 0 where
  pub server : Server S
  pub sha256 : Bytes → Bytes
  pub junk : Block

module _ {S : Type 0} (w : World S) where
  -- `getBlockHeight`; the double is taken as a quint32.
  unfoldable pub get_block_height : S → ℕ
  unfolding search value to_object to_double
  get_block_height s =
      let stat = search w.server max_depth_query (codes "bitcoin/block") s in
      let facets = to_object (value (codes "facets") stat) in
      to_double (value (codes "max") (to_object (value (codes "stat1") facets))) % 2 ^ 32

  -- A block from its document.
  unfoldable pub block_of_hit : Object → Block
  unfolding contains_key value to_string to_double from_base64 block_of_data null_block
  block_of_hit hit =
      if not (contains_key (codes "raw_header") hit)
      then null_block w.junk
      else block_of_data w.sha256 (from_base64 (to_string (value (codes "raw_header") hit)))
          (to_double (value (codes "depth") hit) % 2 ^ 32)

  -- `getLastBlock`
  unfoldable pub get_last_block : S → Block
  unfolding get_block_height depth_query search value to_object first_item block_of_hit
  get_last_block s =
      let res = search w.server (depth_query (get_block_height s)) (codes "bitcoin/block") s in
      let hit = first_item (value (codes "hits") (to_object (value (codes "hits") res))) in
      block_of_hit (to_object (value (codes "_source") (to_object hit)))

  -- `getBlock`
  unfoldable pub get_block : Bytes → S → Block
  unfolding get to_hex block_of_hit
  get_block hash s = block_of_hit (get w.server (to_hex hash) bitcoin (codes "block") s)

  -- A round of the loop of `addBlock`, and the loop.
  unfoldable pub add_block_tx : Bytes → ℕ → Tx → Store S → Option (Store S)
  unfolding tx_hash generate knows add_inventory block_tx_doc index
  add_block_tx block i t st = do
    st' ←
        if not (knows w.server 1 (tx_hash w.sha256 t).0 st)
        then add_inventory w.server 1 (tx_hash w.sha256 t).0 (generate t).0 false st
        else some st
    some (record st' {
      db =
          (index w.server (block_tx_doc block (tx_hash w.sha256 t).0 i) bitcoin (codes "block_tx")
            st'.db).1;
    })

  unfoldable pub add_block_txs : Bytes → ℕ → List Tx → Store S → Option (Store S)
  unfolding add_block_tx
  add_block_txs block i [] st = some st
  add_block_txs block i (t ∷ ts) st = do
    st' ← add_block_tx block i t st
    add_block_txs block (suc i) ts st'

  -- The end of `addBlock`.
  unfoldable pub add_block_header : Block → Store S → Store S
  unfolding inventory_key cache_insert block_doc index
  add_block_header b st = record {
    inventory_cache = cache_insert (inventory_key 2 b.hash) b.raw st.inventory_cache;
    inventory_queue = st.inventory_queue ++ (inventory_key 2 b.hash ∷ []);
    db = (index w.server (block_doc b) bitcoin (codes "block") st.db).1;
  }

  -- `addBlock`
  unfoldable pub add_block : Block → Store S → Option (Store S)
  unfolding get_transactions add_block_txs add_block_header
  add_block b st =
      if not b.is_valid
      then some st
      else do st' ← add_block_txs b.hash 0 (get_transactions b) st; some (add_block_header b st')
