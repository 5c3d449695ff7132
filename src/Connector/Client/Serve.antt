-- ===== src/Connector/Client/Serve.antt =====
-- What the whole client answers to a "getdata" for transactions, from the node's store.
use pinetd.Prelude.{
  ℕ, suc, ◌*◌, ◌^◌, ◌<◌, ◌≡◌, refl, sym, ap, ◌∙◌, lt→ltb, if◌then◌else◌, Option, none, some, List,
  [], ◌∷◌, ◌++◌, Bytes, codes, length, All, find, has_key-find, subst, append_assoc, append-nil,
  arith, Option-cases, inl, inr,
}
use pinetd.Bitcoin.Stream.{read_int}
use pinetd.Bitcoin.Stream.RoundTrip.{read_int-write_int}
use pinetd.Connector.Inventory.{Entry, write_entries, too_short, rounds, send_packet, send_entries}
use pinetd.Connector.Inventory.{Client as Requests}
use pinetd.Connector.Inventory.Entries.{
  IsEntry, listing, too_short-listing, handle_all, entry_first, packets, send_entries-packets,
}
use pinetd.Connector.Store.{Store, get_inventory}
use pinetd.Connector.Store.Blocks.{World}
use pinetd.Connector.Knowledge.{Known}
use pinetd.Connector.Knowledge.Cached.{IsView}
use pinetd.Connector.Client.{serve_known, serve_entry, serve_loop, serve}

abbrev pub tx_entries : List Bytes → List Entry
tx_entries [] = []
tx_entries (h ∷ hs) = (1, h) ∷ tx_entries hs

-- The packets for the transactions that are known, and the entries that are not.
abbrev pub found_tx : Option Bytes → List (Bytes × Bytes) → List (Bytes × Bytes)
found_tx none rest = rest
found_tx (some v) rest = (codes "tx", v) ∷ rest

abbrev pub missing_tx : Option Bytes → Bytes → List Entry → List Entry
missing_tx none h rest = (1, h) ∷ rest
missing_tx (some v) h rest = rest

abbrev pub found : Known → List Bytes → List (Bytes × Bytes)
found k [] = []
found k (h ∷ hs) = found_tx (find h k.txs) (found k hs)

abbrev pub missing : Known → List Bytes → List Entry
missing k [] = []
missing k (h ∷ hs) = missing_tx (find h k.txs) h (missing k hs)

pub tx_entries-IsEntry :
    (hs : List Bytes) → All (λ h. length h ≡ 32) hs → All IsEntry (tx_entries hs)
tx_entries-IsEntry [] a = tt
tx_entries-IsEntry (h ∷ hs) (e, es) = ((omega arith, e), tx_entries-IsEntry hs es)

pub length-tx_entries : (hs : List Bytes) → length (tx_entries hs) ≡ length hs
length-tx_entries [] = refl
length-tx_entries (h ∷ hs) = ap suc (length-tx_entries hs)

-- A store of which `knows` and `getInventory` are right, by what R says of it.
module _ {S : Type 0} (w : World S) (R : Store S → Type 0) (k : Known) (view : IsView w R k) where
  abbrev Turn : Type 0
  Turn = (Requests × Store S) × List Entry

  serve_loop-entries :
      (es : List Entry) (rest : Bytes) (t : Turn)
      → All IsEntry es
      → serve_loop w (length es) (write_entries es ++ rest) t ≡ handle_all (serve_entry w) es t
  unfolding serve_loop write_entries
  serve_loop-entries [] rest t h = refl
  serve_loop-entries (e ∷ es) rest t (h, hs) =
      ap (λ (q : Entry × Bytes). serve_loop w (length es) q.1 (serve_entry w q.0 t))
        (entry_first e es rest h)
      ∙ serve_loop-entries es rest (serve_entry w e t) hs

  -- A result of the loop that is right.
  abbrev Served : List Bytes → Requests → List Entry → Turn → Type 0
  Served hs c es ((c', st'), es') =
      (c' ≡ record c { outbox = c.outbox ++ found k hs }) × (es' ≡ es ++ missing k hs) × R st'

  -- A round for an entry of a transaction.
  serve_tx :
      (h : Bytes) (c : Requests) (st : Store S) (es : List Entry)
      → length h ≡ 32
      → R st
      → (st' : Store S) × R st'
        × (serve_entry w (1, h) ((c, st), es) ≡ (
          (record c { outbox = c.outbox ++ found_tx (find h k.txs) [] }, st'),
          es ++ missing_tx (find h k.txs) h [],
        ))
  unfolding serve_entry serve_known send_packet
  serve_tx h c st es l r =
      let g = view.content h st l r in
      let known = view.knows_tx h st l r ∙ has_key-find h k.txs in
      elim (Option-cases (find h k.txs)) [
        | inl e ↦ (st, r, rw (known, e, append-nil c.outbox) refl)
        | inr (v, e) ↦
            ((get_inventory w.server 1 h st).1, g.1, rw (known, g.0, e, append-nil es) refl)
      ]

  found_first :
      (o : Option Bytes) (rest : List (Bytes × Bytes)) → found_tx o [] ++ rest ≡ found_tx o rest
  found_first none rest = refl
  found_first (some v) rest = refl

  missing_first :
      (o : Option Bytes) (h : Bytes) (rest : List Entry)
      → missing_tx o h [] ++ rest ≡ missing_tx o h rest
  missing_first none h rest = refl
  missing_first (some v) h rest = refl

  serve_many :
      (hs : List Bytes) (c : Requests) (st : Store S) (es : List Entry)
      → All (λ h. length h ≡ 32) hs
      → R st
      → Served hs c es (handle_all (serve_entry w) (tx_entries hs) ((c, st), es))
  serve_many [] c st es a r = (
    ap (λ (o : List (Bytes × Bytes)). record c { outbox = o }) (sym (append-nil c.outbox)),
    sym (append-nil es),
    r,
  )
  serve_many (h ∷ hs) c st es (a, rest) r =
      let (st', r', e) = serve_tx h c st es a r in
      let o = find h k.txs in
      let c' = record c { outbox = c.outbox ++ found_tx o [] } in
      let (p, q, r'') = serve_many hs c' st' (es ++ missing_tx o h []) rest r' in
      subst (λ (t : Turn). Served (h ∷ hs) c es (handle_all (serve_entry w) (tx_entries hs) t))
        (sym e)
        (
          p
              ∙ ap (λ (t : List (Bytes × Bytes)). record c { outbox = t })
                  (append_assoc c.outbox (found_tx o []) (found k hs)
                    ∙ ap (λ (t : List (Bytes × Bytes)). c.outbox ++ t)
                        (found_first o (found k hs))),
          q
              ∙ append_assoc es (missing_tx o h []) (missing k hs)
              ∙ ap (λ (t : List Entry). es ++ t) (missing_first o h (missing k hs)),
          r'',
        )

  abbrev finish : Turn → Requests × Store S
  finish ((c, st), es) = (send_entries (codes "notfound") es c, st)

  -- What `serve` makes of the number of entries and of the bytes behind it.
  abbrev served : Bytes → Requests × Store S → ℕ × Bytes → Requests × Store S
  unfolding too_short rounds
  served pkt (c, st) (count, s) =
      let t = serve_loop w (rounds count) s ((c, st), []) in
      if too_short count pkt then (c, st) else finish t

  pub serve_listed :
      (hs : List Bytes) (c : Requests) (st : Store S)
      → R st
      → All (λ h. length h ≡ 32) hs
      → 36 * length hs < 2 ^ 63
      → ((serve w (listing (tx_entries hs)) (c, st)).0 ≡ record c {
        outbox = c.outbox ++ (found k hs ++ packets (codes "notfound") (missing k hs));
      })
        × R (serve w (listing (tx_entries hs)) (c, st)).1
  unfolding serve rounds
  serve_listed hs c st r a l =
      let es = tx_entries hs in
      let is_entry = tx_entries-IsEntry hs a in
      let size : 36 * length es < 2 ^ 63 = omega (arith, length-tx_entries hs, l) in
      let read : read_int (listing es) ≡ (length es, write_entries es) =
        read_int-write_int (length es) (write_entries es) (omega (arith, size)) in
      let loop : serve_loop w (length es) (write_entries es) ((c, st), [])
          ≡ handle_all (serve_entry w) es ((c, st), []) =
        ap (λ (t : Bytes). serve_loop w (length es) t ((c, st), []))
          (sym (append-nil (write_entries es)))
        ∙ serve_loop-entries es [] ((c, st), []) is_entry in
      let whole : serve w (listing es) (c, st)
          ≡ finish (handle_all (serve_entry w) es ((c, st), [])) =
        ap (served (listing es) (c, st)) read
        ∙ rw (too_short-listing es is_entry size, lt→ltb (length es) (2 ^ 63) (omega (arith, size)))
            (ap finish loop) in
      let (p, q, r') = serve_many hs c st [] a r in
      let out = c.outbox ++ found k hs in
      (
        ap (λ (x : Requests × Store S). x.0) whole
            ∙ ap
                (λ (x : List Entry).
                  send_entries (codes "notfound") x
                    (handle_all (serve_entry w) es ((c, st), [])).0.0)
                q
            ∙ ap (send_entries (codes "notfound") (missing k hs)) p
            ∙ send_entries-packets (codes "notfound") (missing k hs) (record c { outbox = out })
            ∙ ap (λ (x : List (Bytes × Bytes)). record c { outbox = x })
                (append_assoc c.outbox (found k hs) (packets (codes "notfound") (missing k hs))),
        subst (λ (x : Requests × Store S). R x.1) (sym whole) r',
      )
