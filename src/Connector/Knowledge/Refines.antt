-- ===== src/Connector/Knowledge/Refines.antt =====
-- Every answer of the node is the abstract node's.
use pinetd.Prelude.{
  ℕ, suc, ◌+◌, ◌≤◌, arith, ◌≡◌, refl, ap, ◌∙◌, Option, some, List, [], ◌∷◌, ◌++◌, Bool, false,
  Bytes, codes, length, All, find, has_key, has,
}
use pinetd.Prelude.Fault.{◌>>=◌, Returns, Returns-bind, Returns-some}
use pinetd.Bitcoin.Block.{get_transactions, to_hex}
use pinetd.ElasticSearch.{contains_key}
use pinetd.ElasticSearch.Documents.{IsServer}
use pinetd.Connector.Store.{Store, send_queued_inventory}
use pinetd.Connector.Store.Blocks.{World, add_block}
use pinetd.Connector.Store.Tables.{has_tx, has_block, get_tx}
use pinetd.Connector.Blocks.{bitcoin_packet_tx}
use pinetd.Connector.Knowledge.{
  Event, tx, block, knows_tx, knows_block, fetch_tx, tick, Answer, known, content, step, run, Known,
  learn, answers,
}
use pinetd.Connector.Knowledge.Cached.{
  Cached, less_room-Cached, knows-Cached_tx, knows-Cached_block, get_inventory-Cached,
}
use pinetd.Connector.Knowledge.Adds.{IsSha256, packet_tx-Cached, add_block-Cached}

-- A hash that is asked for has 32 bytes.
abbrev pub IsEvent : Event → Type 0
IsEvent (tx dat) = Unit
IsEvent (block b) = Unit
IsEvent (knows_tx h) = length h ≡ 32
IsEvent (knows_block h) = length h ≡ 32
IsEvent (fetch_tx h) = length h ≡ 32
IsEvent tick = Unit

-- The transactions and blocks that come, those of the blocks among them.
abbrev pub arrivals_of : Event → ℕ
arrivals_of (tx dat) = 1
arrivals_of (block b) = suc (length (get_transactions b))
arrivals_of (knows_tx h) = 0
arrivals_of (knows_block h) = 0
arrivals_of (fetch_tx h) = 0
arrivals_of tick = 0

abbrev pub arrivals : List Event → ℕ
arrivals [] = 0
arrivals (e ∷ es) = arrivals_of e + arrivals es

-- Nothing is known at first.
abbrev pub nothing : Known
nothing = record { txs = []; blocks = []; pending = [] }

-- A node at its start, with a database where nothing is found under a hash.
pub record IsFresh {S : Type 0} (w : World S) (st : Store S) : Type 0 where
  pub cache : st.inventory_cache ≡ []
  pub queue : st.inventory_queue ≡ []
  pub no_tx : (h : Bytes) → length h ≡ 32 → has_tx w.server (to_hex h) st.db ≡ false
  pub no_doc :
      (h : Bytes)
      → length h ≡ 32
      → contains_key (codes "raw_data") (get_tx w.server (to_hex h) st.db) ≡ false
  pub no_block : (h : Bytes) → length h ≡ 32 → has_block w.server (to_hex h) st.db ≡ false

module _ {S : Type 0} (w : World S) where
  abbrev Answers : ℕ → Event → Known → List Answer × Store S → Type 0
  Answers n e k (out, st) = (out ≡ (learn w.sha256 e k).0) × Cached w n (learn w.sha256 e k).1 st

  told :
      (n : ℕ) (q : List Bytes) (k : Known) (st : Store S)
      → Cached w n k st
      → Cached w n (record k { pending = q }) (record st { inventory_queue = q })
  told n q k st r = record {
    tx = r.tx;
    block = r.block;
    room = r.room;
    no_tx = r.no_tx;
    no_doc = r.no_doc;
    no_block = r.no_block;
    queue = refl;
  }

  tick-Answers :
      (n : ℕ) (q : List Bytes) (st : Store S) (k : Known)
      → Cached w n k st
      → st.inventory_queue ≡ q
      → k.pending ≡ q
      → Returns (Answers n tick k) (step w tick st)
  unfolding send_queued_inventory
  tick-Answers n [] st k r e f = rw (e, f) (refl, told n [] k st r)
  tick-Answers n (p ∷ ps) st k r e f = rw (e, f) (refl, told n [] k st r)

  step-Answers :
      (n : ℕ) (e : Event) (st : Store S) (k : Known)
      → IsServer w.server
      → IsSha256 w.sha256
      → Cached w (arrivals_of e + n) k st
      → IsEvent e
      → Returns (Answers n e k) (step w e st)
  step-Answers n (tx dat) st k ok sha r b =
      Returns-bind (Cached w n (learn w.sha256 (tx dat) k).1) (Answers n (tx dat) k)
        (bitcoin_packet_tx w dat st) (λ st'. some ([], st'))
        (packet_tx-Cached w n dat k st ok sha
          (less_room-Cached w (suc n) (1 + n) k st (omega arith) r))
        (λ st' r'. (refl, r'))
  step-Answers n (block b) st k ok sha r u =
      Returns-bind (Cached w n (learn w.sha256 (block b) k).1) (Answers n (block b) k)
        (add_block w b st) (λ st'. some ([], st')) (add_block-Cached w n b k st ok sha r)
        (λ st' r'. (refl, r'))
  step-Answers n (knows_tx h) st k ok sha r l =
      let r' = less_room-Cached w n (0 + n) k st (omega arith) r in
      (ap (λ (x : Bool). known x ∷ []) (knows-Cached_tx w n h k st l r'), r')
  step-Answers n (knows_block h) st k ok sha r l =
      let r' = less_room-Cached w n (0 + n) k st (omega arith) r in
      (ap (λ (x : Bool). known x ∷ []) (knows-Cached_block w n h k st l r'), r')
  step-Answers n (fetch_tx h) st k ok sha r l =
      let a =
        get_inventory-Cached w n h k st l (less_room-Cached w n (0 + n) k st (omega arith) r) in
      (ap (λ (x : Bytes). content x ∷ []) a.0, a.1)
  step-Answers n tick st k ok sha r u =
      tick-Answers n k.pending st k (less_room-Cached w n (0 + n) k st (omega arith) r) r.queue refl

  run-answers_from :
      (es : List Event) (st : Store S) (k : Known)
      → IsServer w.server
      → IsSha256 w.sha256
      → Cached w (arrivals es) k st
      → All IsEvent es
      → run w es st ≡ some (answers w.sha256 es k)
  run-answers_from [] st k ok sha r b = refl
  run-answers_from (e ∷ es) st k ok sha r (b, bs) =
      let n = arrivals es in
      let (q, eq, cached) =
        Returns-some (Answers n e k) (step w e st) (step-Answers n e st k ok sha r b) in
      ap
        (λ (m : Option (List Answer × Store S)).
          m >>= λ p. run w es p.1 >>= λ outs. some (p.0 ++ outs))
        eq
      ∙ ap (λ (m : Option (List Answer)). m >>= λ outs. some (q.0 ++ outs))
          (run-answers_from es q.1 (learn w.sha256 e k).1 ok sha cached.1 bs)
      ∙ ap (λ (o : List Answer). some (o ++ answers w.sha256 es (learn w.sha256 e k).1)) cached.0

  pub IsFresh-Cached : (n : ℕ) (st : Store S) → n ≤ 100 → IsFresh w st → Cached w n nothing st
  unfolding find has_key has
  IsFresh-Cached n st l f = record {
    tx = λ h. rw f.cache refl;
    block = λ h. rw f.cache refl;
    room = rw f.cache (omega (arith, l));
    no_tx = f.no_tx;
    no_doc = f.no_doc;
    no_block = f.no_block;
    queue = f.queue;
  }

-- The node with its cache of 100 entries and its database answers every sequence of calls, in which at most 100
-- transactions and blocks come, as the abstract node does, which has no cache: if the server does what is
-- documented of a POST without an identifier, the hash gives 32 bytes, the hashes that are asked for have 32
-- bytes, the cache and the queue are empty at first, and the database finds nothing under a hash, no call aborts,
-- and the answers are equal: what is known, the bytes of a transaction, and the announcements.
pub run-answers :
    {S : Type 0} (w : World S) (es : List Event) (st : Store S)
    → IsServer w.server
    → IsSha256 w.sha256
    → IsFresh w st
    → All IsEvent es
    → arrivals es ≤ 100
    → run w es st ≡ some (answers w.sha256 es nothing)
run-answers w es st ok sha f b l =
    run-answers_from w es st nothing ok sha (IsFresh-Cached w (arrivals es) st l f) b
