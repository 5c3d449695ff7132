-- ===== src/Connector/Knowledge/Adds.antt =====
-- The calls that add to a store whose cache has room, as the abstract node learns.
use pinetd.Prelude.{
  ℕ, suc, ◌+◌, ◌≡◌, ap, sym, ◌∙◌, not, if◌then◌else◌, some, List, [], ◌∷◌, ◌++◌, Bool, true, false,
  Bytes, codes, put, find-put, has_key, add, length, arith, Bool-cases, inl, inr,
}
use pinetd.Prelude.Fault.{Returns, Returns-bind}
use pinetd.Bitcoin.Tx.{Tx, double_sha256, generate}
use pinetd.Bitcoin.Tx.{hash as tx_hash}
use pinetd.Bitcoin.Block.{Block, get_transactions}
use pinetd.ElasticSearch.{index}
use pinetd.ElasticSearch.Documents.{IsServer}
use pinetd.Connector.Store.{
  Store, bitcoin, inventory_key, cache_insert, knows, add_inventory, block_tx_doc, block_doc,
  index_tx,
}
use pinetd.Connector.Store.Blocks.{World, add_block_tx, add_block_txs, add_block_header, add_block}
use pinetd.Connector.Store.Cache.{cache_insert-find, cache_insert-has_key, length-cache_insert}
use pinetd.Connector.Store.Tables.{Untouched, index-Untouched, index_tx-Untouched}
use pinetd.Connector.Blocks.{bitcoin_packet_tx}
use pinetd.Connector.Knowledge.{tx, block, Known, learn_tx, learn_txs, learn}
use pinetd.Connector.Knowledge.Related.{
  has_added, tx_keys, block_keys, tx_block_keys, block_tx_keys,
}
use pinetd.Connector.Knowledge.Cached.{Cached, less_room-Cached, knows-Cached_tx}

-- The hash gives 32 bytes, as SHA-256 does.
abbrev pub IsSha256 : (Bytes → Bytes) → Type 0
IsSha256 sha256 = (dat : Bytes) → length (double_sha256 sha256 dat) ≡ 32

module _ {S : Type 0} (w : World S) where
  -- The database has changed where nothing is looked up.
  stored :
      (n : ℕ) (k : Known) (st : Store S) (s : S)
      → Untouched w.server st.db s
      → Cached w n k st
      → Cached w n k (record st { db = s })
  stored n k st s u r = record {
    tx = r.tx;
    block = r.block;
    room = r.room;
    no_tx = λ h l. u.tx h l ∙ r.no_tx h l;
    no_doc = λ h l. rw (u.doc h l) (r.no_doc h l);
    no_block = λ h l. u.block h l ∙ r.no_block h l;
    queue = r.queue;
  }

  -- A transaction is put in the cache, and perhaps in the queue.
  insert_tx-Cached :
      (n : ℕ) (h dat : Bytes) (k : Known) (st : Store S) (q p : List Bytes)
      → q ≡ p
      → Cached w (suc n) k st
      → Cached w n
          (record k { txs = put h dat k.txs; pending = p })
          (record st {
            inventory_cache = cache_insert (inventory_key 1 h) dat st.inventory_cache;
            inventory_queue = q;
          })
  insert_tx-Cached n h dat k st q p e r =
      let m = st.inventory_cache in
      let key = inventory_key 1 h in
      record {
        tx = λ j.
            cache_insert-find key (inventory_key 1 j) dat m (omega (arith, r.room))
            ∙ rw (tx_keys h j, r.tx j) (sym (find-put h j dat k.txs));
        block = λ j.
            cache_insert-has_key key (inventory_key 2 j) dat m (omega (arith, r.room))
            ∙ rw (tx_block_keys h j) (r.block j);
        room = omega (arith, length-cache_insert key dat m, r.room);
        no_tx = r.no_tx;
        no_doc = r.no_doc;
        no_block = r.no_block;
        queue = e;
      }

  insert_block-Cached :
      (n : ℕ) (h raw : Bytes) (k : Known) (st : Store S)
      → Cached w (suc n) k st
      → Cached w n
          (record k { blocks = add h k.blocks; pending = k.pending ++ (inventory_key 2 h ∷ []) })
          (record st {
            inventory_cache = cache_insert (inventory_key 2 h) raw st.inventory_cache;
            inventory_queue = st.inventory_queue ++ (inventory_key 2 h ∷ []);
          })
  insert_block-Cached n h raw k st r =
      let m = st.inventory_cache in
      let key = inventory_key 2 h in
      record {
        tx = λ j.
            cache_insert-find key (inventory_key 1 j) raw m (omega (arith, r.room))
            ∙ rw (block_tx_keys h j) (r.tx j);
        block = λ j.
            cache_insert-has_key key (inventory_key 2 j) raw m (omega (arith, r.room))
            ∙ rw (block_keys h j, r.block j) (sym (has_added h j k.blocks));
        room = omega (arith, length-cache_insert key raw m, r.room);
        no_tx = r.no_tx;
        no_doc = r.no_doc;
        no_block = r.no_block;
        queue = ap (λ (t : List Bytes). t ++ (key ∷ [])) r.queue;
      }

  -- A transaction that was not known.
  add_inventory-Cached :
      (n : ℕ) (h dat : Bytes) (send : Bool) (k : Known) (st : Store S)
      → IsServer w.server
      → Cached w (suc n) k st
      → Returns
          (Cached w n (record k {
            txs = put h dat k.txs;
            pending = if send then k.pending ++ (inventory_key 1 h ∷ []) else k.pending;
          }))
          (add_inventory w.server 1 h dat send st)
  unfolding add_inventory
  add_inventory-Cached n h dat send k st ok r =
      let add_key = λ (q : List Bytes). if send then q ++ (inventory_key 1 h ∷ []) else q in
      insert_tx-Cached n h dat k (record st { db = index_tx w.server h dat st.db })
        (add_key st.inventory_queue) (add_key k.pending) (ap add_key r.queue)
        (stored (suc n) k st (index_tx w.server h dat st.db)
          (index_tx-Untouched w.server ok h dat st.db) r)

  pub packet_tx-Cached :
      (n : ℕ) (dat : Bytes) (k : Known) (st : Store S)
      → IsServer w.server
      → IsSha256 w.sha256
      → Cached w (suc n) k st
      → Returns (Cached w n (learn w.sha256 (tx dat) k).1) (bitcoin_packet_tx w dat st)
  unfolding bitcoin_packet_tx
  packet_tx-Cached n dat k st ok sha r =
      let h = double_sha256 w.sha256 dat in
      rw (knows-Cached_tx w (suc n) h k st (sha dat) r) (elim (Bool-cases (has_key h k.txs)) [
        | inl e ↦ rw e (less_room-Cached w n (suc n) k st (omega arith) r)
        | inr e ↦ rw e (add_inventory-Cached n h dat true k st ok r)
      ])

  -- A transaction of a block.
  block_tx-Cached :
      (n : ℕ) (bh : Bytes) (i : ℕ) (t : Tx) (k : Known) (st : Store S)
      → IsServer w.server
      → IsSha256 w.sha256
      → Cached w (suc n) k st
      → Returns
          (Cached w n (learn_tx (tx_hash w.sha256 t).0 (generate t).0 k))
          (add_block_tx w bh i t st)
  unfolding add_block_tx learn_tx tx_hash
  block_tx-Cached n bh i t k st ok sha r =
      let h = double_sha256 w.sha256 (generate t).0 in
      let k' = learn_tx h (generate t).0 k in
      Returns-bind (Cached w n k') (Cached w n k')
        (if not (knows w.server 1 h st)
          then add_inventory w.server 1 h (generate t).0 false st
          else some st)
        (λ st'. some (record st' {
          db = (index w.server (block_tx_doc bh h i) bitcoin (codes "block_tx") st'.db).1;
        }))
        (rw (knows-Cached_tx w (suc n) h k st (sha (generate t).0) r)
          (elim (Bool-cases (has_key h k.txs)) [
            | inl e ↦ rw e (less_room-Cached w n (suc n) k st (omega arith) r)
            | inr e ↦ rw e (add_inventory-Cached n h (generate t).0 false k st ok r)
          ]))
        (λ st' r'.
          stored n k' st' (index w.server (block_tx_doc bh h i) bitcoin (codes "block_tx") st'.db).1
            (index-Untouched w.server ok (block_tx_doc bh h i) (codes "block_tx") st'.db) r')

  block_txs-Cached :
      (n : ℕ) (bh : Bytes) (i : ℕ) (ts : List Tx) (k : Known) (st : Store S)
      → IsServer w.server
      → IsSha256 w.sha256
      → Cached w (length ts + n) k st
      → Returns (Cached w n (learn_txs w.sha256 ts k)) (add_block_txs w bh i ts st)
  unfolding add_block_txs learn_txs
  block_txs-Cached n bh i [] k st ok sha r = less_room-Cached w n (0 + n) k st (omega arith) r
  block_txs-Cached n bh i (t ∷ ts) k st ok sha r =
      let k' = learn_tx (tx_hash w.sha256 t).0 (generate t).0 k in
      let m = length ts + n in
      Returns-bind (Cached w m k') (Cached w n (learn_txs w.sha256 ts k'))
        (add_block_tx w bh i t st) (add_block_txs w bh (suc i) ts)
        (block_tx-Cached m bh i t k st ok sha
          (less_room-Cached w (suc m) (suc (length ts) + n) k st (omega arith) r))
        (λ st' r'. block_txs-Cached n bh (suc i) ts k' st' ok sha r')

  pub add_block-Cached :
      (n : ℕ) (b : Block) (k : Known) (st : Store S)
      → IsServer w.server
      → IsSha256 w.sha256
      → Cached w (suc (length (get_transactions b)) + n) k st
      → Returns (Cached w n (learn w.sha256 (block b) k).1) (add_block w b st)
  unfolding add_block add_block_header
  add_block-Cached n b k st ok sha r =
      let ts = get_transactions b in
      let k' = learn_txs w.sha256 ts k in
      let k'' : Known = record k' {
        blocks = add b.hash k'.blocks;
        pending = k'.pending ++ (inventory_key 2 b.hash ∷ []);
      } in
      elim (Bool-cases b.is_valid) [
        | inr e ↦ rw e (less_room-Cached w n (suc (length ts) + n) k st (omega arith) r)
        | inl e ↦ rw e (
            Returns-bind (Cached w (suc n) k') (Cached w n k'') (add_block_txs w b.hash 0 ts st)
              (λ st'. some (add_block_header w b st'))
              (block_txs-Cached (suc n) b.hash 0 ts k st ok sha
                (less_room-Cached w (length ts + suc n) (suc (length ts) + n) k st (omega arith) r))
              (λ st' r'.
                stored n k''
                  (record st' {
                    inventory_cache =
                        cache_insert (inventory_key 2 b.hash) b.raw st'.inventory_cache;
                    inventory_queue = st'.inventory_queue ++ (inventory_key 2 b.hash ∷ []);
                  })
                  (index w.server (block_doc b) bitcoin (codes "block") st'.db).1
                  (index-Untouched w.server ok (block_doc b) (codes "block") st'.db)
                  (insert_block-Cached n b.hash b.raw k' st' r')))
      ]
