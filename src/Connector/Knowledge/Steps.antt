-- ===== src/Connector/Knowledge/Steps.antt =====
-- A store whose database holds what the abstract node knows, and the calls that read it.
use pinetd.Prelude.{
  ◌≡◌, refl, sym, Option, none, some, [], Bytes, Dict, find, has_key, has_key-find, has, arith,
  Option-cases, inl, inr,
}
use pinetd.Connector.Store.{
  Store, inventory_key, cache_object, knows, load_tx, if_cached, get_inventory,
}
use pinetd.Connector.Store.Blocks.{World}
use pinetd.Connector.Store.Cache.{find-cache_object, cache_object-find}
use pinetd.Connector.Knowledge.{Known}
use pinetd.Connector.Knowledge.Related.{Coherent, Backed, insert_tx-Coherent}

module _ {S : Type 0} (w : World S) where
  -- The store holds what the abstract node knows.
  pub record Related (st : Store S) (k : Known) : Type 0 where
    pub cached : Coherent st.inventory_cache k.txs k.blocks
    pub backed : Backed w.server st.db k.txs k.blocks
    pub queue : st.inventory_queue ≡ k.pending

  pub knows-tx :
      (h : Bytes) (st : Store S) (k : Known)
      → Related st k
      → knows w.server 1 h st ≡ has_key h k.txs
  unfolding knows
  knows-tx h st k r = elim (Option-cases (find (inventory_key 1 h) st.inventory_cache)) [
    | inl e ↦ ground (
      arith,
      e,
      has_key-find (inventory_key 1 h) st.inventory_cache,
      has_key-find h k.txs,
      r.backed.tx h,
    )
    | inr (v, e) ↦ ground (
      arith,
      e,
      has_key-find (inventory_key 1 h) st.inventory_cache,
      has_key-find h k.txs,
      r.cached.tx h v e,
    )
  ]

  pub knows-block :
      (h : Bytes) (st : Store S) (k : Known) → Related st k → knows w.server 2 h st ≡ has h k.blocks
  unfolding knows
  knows-block h st k r = elim (Option-cases (find (inventory_key 2 h) st.inventory_cache)) [
    | inl e ↦
        ground (arith, e, has_key-find (inventory_key 2 h) st.inventory_cache, r.backed.block h)
    | inr (v, e) ↦
        ground (arith, e, has_key-find (inventory_key 2 h) st.inventory_cache, r.cached.block h v e)
  ]

  -- An answer that is right, from a store that still holds what is known.
  abbrev pub IsContent : Bytes → Known → Bytes × Store S → Type 0
  IsContent h k (dat, st) = (dat ≡ (elim (find h k.txs) [ none ↦ [] | some v ↦ v ])) × Related st k

  load_tx-IsContent :
      (h : Bytes) (st : Store S) (k : Known) → Related st k → IsContent h k (load_tx w.server h st)
  unfolding load_tx
  load_tx-IsContent h st k r = elim (Option-cases (find h k.txs)) [
    | inl e ↦ (let d = rw e at (r.backed.doc h) in rw (d, e) (refl, r))
    | inr (v, e) ↦
        (let d = rw e at (r.backed.doc h) in
          rw (d.0, d.1, e)
            (
              refl,
              record {
                cached = insert_tx-Coherent r.cached h v e;
                backed = r.backed;
                queue = r.queue;
              },
            ))
  ]

  if_cached-IsContent :
      (h : Bytes) (o : Option Bytes) (m : Dict Bytes) (st : Store S) (k : Known)
      → Related st k
      → find (inventory_key 1 h) st.inventory_cache ≡ o
      → ((j : Bytes) → find j m ≡ find j st.inventory_cache)
      → IsContent h k (if_cached w.server o m 1 h st)
  unfolding if_cached
  if_cached-IsContent h none m st k r e same = load_tx-IsContent h st k r
  if_cached-IsContent h (some v) m st k r e same = (
    rw (r.cached.tx h v e) refl,
    record {
      cached = record {
        tx = λ j x p. r.cached.tx j x (rw (same (inventory_key 1 j)) at p);
        block = λ j x p. r.cached.block j x (rw (same (inventory_key 2 j)) at p);
      };
      backed = r.backed;
      queue = r.queue;
    },
  )

  pub get_inventory-IsContent :
      (h : Bytes) (st : Store S) (k : Known)
      → Related st k
      → IsContent h k (get_inventory w.server 1 h st)
  unfolding get_inventory
  get_inventory-IsContent h st k r =
      let key = inventory_key 1 h in
      if_cached-IsContent h (cache_object key st.inventory_cache).0
        (cache_object key st.inventory_cache).1 st k r
        (sym (cache_object-find key st.inventory_cache))
        (λ j. find-cache_object key j st.inventory_cache)
