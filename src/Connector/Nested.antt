-- ===== src/Connector/Nested.antt =====
-- ElasticSearch waits for the server in a nested event loop, which hands packets of other clients to their slots:
-- the slot for "tx" of ModBitcoinConnectorClient.cpp, cut where it waits for the answer of `knows`. Its calls are a
-- stack, and the server's answer is taken when it is asked. (What `addInventory` posts is stored in one step.)
use pinetd.Prelude.{
  ℕ, zero, suc, ◌≡◌, refl, sym, ap, ◌∙◌, if◌then◌else◌, Option, some, List, [], ◌∷◌, ◌++◌, Bool,
  true, false, Bytes, codes, has_key, replicate, append_assoc, arith, append-nil, Bool-cases, inl,
  inr,
}
use pinetd.Prelude.Fault.{◌>>=◌, Returns, Returns-mono}
use pinetd.Bitcoin.Tx.{double_sha256}
use pinetd.Bitcoin.Block.{to_hex}
use pinetd.ElasticSearch.{contains}
use pinetd.Connector.Store.{
  Store, bitcoin, inventory_key, knows, add_inventory, index_tx, cache_insert,
}
use pinetd.Connector.Store.Blocks.{World}
use pinetd.Connector.Blocks.{bitcoin_packet_tx}

-- A transaction comes, or the innermost call that waits goes on.
pub data Event : Type 0 where
  comes : Bytes → Event
  goes_on : Event

replicate_push :
    {A : Type 0} (n : ℕ) (x : A) (xs : List A)
    → replicate n x ++ (x ∷ xs) ≡ x ∷ (replicate n x ++ xs)
replicate_push zero x xs = refl
replicate_push (suc n) x xs = ap (λ t. x ∷ t) (replicate_push n x xs)

module _ {S : Type 0} (w : World S) where
  -- The store, and the calls that wait, with their transactions and the answers to come.
  abbrev pub Calls : Type 0
  Calls = Store S × List (Bytes × Bool)

  -- The first half: `knows` returns at once what is in the cache, and else waits.
  unfoldable pub begin_call : Bytes → Calls → Calls
  unfolding double_sha256 inventory_key contains to_hex
  begin_call dat (st, ws) =
      let h = double_sha256 w.sha256 dat in
      if has_key (inventory_key 1 h) st.inventory_cache
      then (st, ws)
      else (st, (dat, contains w.server (to_hex h) bitcoin (codes "tx") st.db) ∷ ws)

  -- The second half, on the answer.
  unfoldable pub resume : Bytes × Bool → Store S → Option (Store S)
  unfolding double_sha256 add_inventory
  resume (dat, answer) st =
      if answer then some st else add_inventory w.server 1 (double_sha256 w.sha256 dat) dat true st

  unfoldable pub step : Event → Calls → Option Calls
  unfolding begin_call resume
  step (comes dat) q = some (begin_call dat q)
  step goes_on (st, []) = some (st, [])
  step goes_on (st, c ∷ ws) = do st' ← resume c st; some (st', ws)

  unfoldable pub run : List Event → Calls → Option Calls
  unfolding step
  run [] q = some q
  run (e ∷ es) q = do q' ← step e q; run es q'

  begin_unknown :
      (dat : Bytes) (st : Store S) (ws : List (Bytes × Bool))
      → knows w.server 1 (double_sha256 w.sha256 dat) st ≡ false
      → begin_call dat (st, ws) ≡ (st, (dat, false) ∷ ws)
  unfolding begin_call knows
  begin_unknown dat st ws e =
      let h = double_sha256 w.sha256 dat in
      elim (Bool-cases (has_key (inventory_key 1 h) st.inventory_cache)) [
        | inl f ↦ absurd (ground (arith, e, f))
        | inr f ↦ rw (f, sym e) (ap (λ (b : Bool). (st, (dat, b) ∷ ws)) (ground (arith, e, f)))
      ]

  -- A call that waits alone does what the slot does.
  pub run_alone :
      (dat : Bytes) (st : Store S)
      → run (comes dat ∷ goes_on ∷ []) (st, [])
        ≡ (bitcoin_packet_tx w dat st >>= λ st'. some (st', []))
  unfolding run step begin_call resume bitcoin_packet_tx knows
  run_alone dat st =
      let h = double_sha256 w.sha256 dat in
      elim (Bool-cases (has_key (inventory_key 1 h) st.inventory_cache)) [
        | inl e ↦ rw e refl
        | inr e ↦ elim (Bool-cases (contains w.server (to_hex h) bitcoin (codes "tx") st.db)) [
          | inl f ↦ rw (e, f) refl
          | inr f ↦ rw (e, f) refl
        ]
      ]

  -- The calls of n clients with the same transaction.
  begin_all :
      (n : ℕ) (dat : Bytes) (st : Store S) (ws : List (Bytes × Bool)) (es : List Event)
      → knows w.server 1 (double_sha256 w.sha256 dat) st ≡ false
      → run (replicate n (comes dat) ++ es) (st, ws) ≡ run es (st, replicate n (dat, false) ++ ws)
  unfolding run step
  begin_all zero dat st ws es e = refl
  begin_all (suc n) dat st ws es e = rw (begin_unknown dat st ws e) (
      begin_all n dat st ((dat, false) ∷ ws) es e
      ∙ ap (λ (t : List (Bytes × Bool)). run es (st, t)) (replicate_push n (dat, false) ws))

  abbrev pub Announced : ℕ → Bytes → Store S → List (Bytes × Bool) → Calls → Type 0
  Announced n h st ws (st', ws') =
      (st'.inventory_queue ≡ st.inventory_queue ++ replicate n (inventory_key 1 h)) × (ws' ≡ ws)

  resume_all :
      (n : ℕ) (dat : Bytes) (st : Store S) (ws : List (Bytes × Bool))
      → Returns
          (Announced n (double_sha256 w.sha256 dat) st ws)
          (run (replicate n goes_on) (st, replicate n (dat, false) ++ ws))
  unfolding run step resume add_inventory
  resume_all zero dat st ws = (sym (append-nil st.inventory_queue), refl)
  resume_all (suc n) dat st ws =
      let h = double_sha256 w.sha256 dat in
      let key = inventory_key 1 h in
      let st' : Store S = record {
        inventory_cache = cache_insert key dat st.inventory_cache;
        inventory_queue = st.inventory_queue ++ (key ∷ []);
        db = index_tx w.server h dat st.db;
      } in
      Returns-mono (Announced n h st' ws) (Announced (suc n) h st ws)
        (run (replicate n goes_on) (st', replicate n (dat, false) ++ ws)) (resume_all n dat st' ws)
        (λ q a. (a.0 ∙ append_assoc st.inventory_queue (key ∷ []) (replicate n key), a.1))

-- If n clients send a transaction that the node does not know, each while the slots of those before wait for the
-- database, then, when all have gone on, nothing has aborted and no call waits that did not wait before, but the
-- transaction stands n times in the queue of what is announced.
pub run_nested :
    {S : Type 0} (w : World S) (n : ℕ) (dat : Bytes) (st : Store S) (ws : List (Bytes × Bool))
    → knows w.server 1 (double_sha256 w.sha256 dat) st ≡ false
    → Returns
        (Announced w n (double_sha256 w.sha256 dat) st ws)
        (run w (replicate n (comes dat) ++ replicate n goes_on) (st, ws))
run_nested w n dat st ws e =
    rw (begin_all w n dat st ws (replicate n goes_on) e) (resume_all w n dat st ws)
