-- ===== src/Connector/Knowledge/Cached.antt =====
-- A store whose cache holds all that the abstract node knows, with room for more, and the calls that read it.
use pinetd.Prelude.{
  ℕ, ◌+◌, ◌≡◌, ◌≤◌, refl, sym, ◌∙◌, Option, none, some, [], false, Bytes, codes, Dict, find,
  has_key, has_key-find, has, length, arith,
}
use pinetd.Bitcoin.Block.{to_hex}
use pinetd.ElasticSearch.{contains_key}
use pinetd.Connector.Store.{
  Store, inventory_key, cache_object, knows, load_tx, if_cached, get_inventory,
}
use pinetd.Connector.Store.Blocks.{World}
use pinetd.Connector.Store.Cache.{find-cache_object, cache_object-find, length-cache_object}
use pinetd.Connector.Store.Tables.{has_tx, has_block, get_tx}
use pinetd.Connector.Knowledge.{Known}
use pinetd.Connector.Knowledge.Steps.{Related, knows-tx, get_inventory-IsContent}

-- What the calls that read a transaction answer, and what they keep.
pub record IsView {S : Type 0} (w : World S) (R : Store S → Type 0) (k : Known) : Type 0 where
  pub knows_tx :
      (h : Bytes) (st : Store S) → length h ≡ 32 → R st → knows w.server 1 h st ≡ has_key h k.txs
  pub content :
      (h : Bytes) (st : Store S)
      → length h ≡ 32
      → R st
      → ((get_inventory w.server 1 h st).0 ≡ (elim (find h k.txs) [ none ↦ [] | some v ↦ v ]))
        × R (get_inventory w.server 1 h st).1

module _ {S : Type 0} (w : World S) where
  pub Related-IsView : (k : Known) → IsView w (λ st. Related w st k) k
  Related-IsView k = record {
    knows_tx = λ h st l r. knows-tx w h st k r;
    content = λ h st l r. get_inventory-IsContent w h st k r;
  }

  -- The cache holds what is known and has room for n entries more; under the hashes nothing is found in the
  -- database.
  pub record Cached (n : ℕ) (k : Known) (st : Store S) : Type 0 where
    pub tx : (h : Bytes) → find (inventory_key 1 h) st.inventory_cache ≡ find h k.txs
    pub block : (h : Bytes) → has_key (inventory_key 2 h) st.inventory_cache ≡ has h k.blocks
    pub room : length st.inventory_cache + n ≤ 100
    pub no_tx : (h : Bytes) → length h ≡ 32 → has_tx w.server (to_hex h) st.db ≡ false
    pub no_doc :
        (h : Bytes)
        → length h ≡ 32
        → contains_key (codes "raw_data") (get_tx w.server (to_hex h) st.db) ≡ false
    pub no_block : (h : Bytes) → length h ≡ 32 → has_block w.server (to_hex h) st.db ≡ false
    pub queue : st.inventory_queue ≡ k.pending

  -- Less room will do.
  pub less_room-Cached :
      (n m : ℕ) (k : Known) (st : Store S) → n ≤ m → Cached m k st → Cached n k st
  less_room-Cached n m k st l r = record {
    tx = r.tx;
    block = r.block;
    room = omega (arith, l, r.room);
    no_tx = r.no_tx;
    no_doc = r.no_doc;
    no_block = r.no_block;
    queue = r.queue;
  }

  pub knows-Cached_tx :
      (n : ℕ) (h : Bytes) (k : Known) (st : Store S)
      → length h ≡ 32
      → Cached n k st
      → knows w.server 1 h st ≡ has_key h k.txs
  unfolding knows
  knows-Cached_tx n h k st l r = ground (
    arith,
    has_key-find (inventory_key 1 h) st.inventory_cache,
    has_key-find h k.txs,
    r.tx h,
    r.no_tx h l,
  )

  pub knows-Cached_block :
      (n : ℕ) (h : Bytes) (k : Known) (st : Store S)
      → length h ≡ 32
      → Cached n k st
      → knows w.server 2 h st ≡ has h k.blocks
  unfolding knows
  knows-Cached_block n h k st l r = ground (arith, r.block h, r.no_block h l)

  -- A use of an entry.
  used :
      (n : ℕ) (key : Bytes) (k : Known) (st : Store S)
      → Cached n k st
      → Cached n k (record st { inventory_cache = (cache_object key st.inventory_cache).1 })
  used n key k st r = record {
    tx = λ h. find-cache_object key (inventory_key 1 h) st.inventory_cache ∙ r.tx h;
    block = λ h.
        has_key-find (inventory_key 2 h) (cache_object key st.inventory_cache).1
        ∙ rw (find-cache_object key (inventory_key 2 h) st.inventory_cache)
            (sym (has_key-find (inventory_key 2 h) st.inventory_cache))
        ∙ r.block h;
    room = omega (arith, length-cache_object key st.inventory_cache, r.room);
    no_tx = r.no_tx;
    no_doc = r.no_doc;
    no_block = r.no_block;
    queue = r.queue;
  }

  abbrev Right : ℕ → Bytes → Known → Bytes × Store S → Type 0
  Right n h k (dat, st) = (dat ≡ (elim (find h k.txs) [ none ↦ [] | some v ↦ v ])) × Cached n k st

  if_cached-Right :
      (n : ℕ) (h : Bytes) (o : Option Bytes) (m : Dict Bytes) (k : Known) (st : Store S)
      → length h ≡ 32
      → Cached n k st
      → Cached n k (record st { inventory_cache = m })
      → find h k.txs ≡ o
      → Right n h k (if_cached w.server o m 1 h st)
  unfolding if_cached load_tx
  if_cached-Right n h none m k st l r u e = rw (r.no_doc h l, e) (refl, r)
  if_cached-Right n h (some v) m k st l r u e = (rw e refl, u)

  pub get_inventory-Cached :
      (n : ℕ) (h : Bytes) (k : Known) (st : Store S)
      → length h ≡ 32
      → Cached n k st
      → Right n h k (get_inventory w.server 1 h st)
  unfolding get_inventory
  get_inventory-Cached n h k st l r =
      let key = inventory_key 1 h in
      if_cached-Right n h (cache_object key st.inventory_cache).0
        (cache_object key st.inventory_cache).1 k st l r (used n key k st r)
        (sym (r.tx h) ∙ sym (cache_object-find key st.inventory_cache))

  pub Cached-IsView : (n : ℕ) (k : Known) → IsView w (Cached n k) k
  Cached-IsView n k = record {
    knows_tx = λ h st l r. knows-Cached_tx n h k st l r;
    content = λ h st l r. get_inventory-Cached n h k st l r;
  }
