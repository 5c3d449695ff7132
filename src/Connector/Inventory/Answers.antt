-- ===== src/Connector/Inventory/Answers.antt =====
-- What a client answers to a "getdata".
use pinetd.Prelude.{
  ℕ, ◌*◌, ◌^◌, ◌<◌, ◌≡◌, refl, sym, ap, ◌∙◌, ltb, lt→ltb, ◌==◌, if◌then◌else◌, List, [], ◌∷◌, ◌++◌,
  Bytes, codes, length, All, append_assoc, append-nil, Bool-cases, inl, inr, arith,
}
use pinetd.Bitcoin.Stream.{read_int}
use pinetd.Bitcoin.Stream.RoundTrip.{read_int-write_int}
use pinetd.Connector.Inventory.{
  Node, Client, Entry, write_entries, too_short, rounds, send_packet, send_entries, send_known,
  getdata_entry, getdata_loop, bitcoin_packet_getdata,
}
use pinetd.Connector.Inventory.Entries.{
  IsEntry, listing, too_short-listing, handle_all, entry_first, packets, send_entries-packets,
}

getdata_loop-entries :
    (n : Node) (es : List Entry) (rest : Bytes) (t : Client × List Entry)
    → All IsEntry es
    → getdata_loop n (length es) (write_entries es ++ rest) t ≡ handle_all (getdata_entry n) es t
unfolding getdata_loop write_entries
getdata_loop-entries n [] rest t h = refl
getdata_loop-entries n (e ∷ es) rest t (h, hs) =
    ap (λ (q : Entry × Bytes). getdata_loop n (length es) q.1 (getdata_entry n q.0 t))
      (entry_first e es rest h)
    ∙ getdata_loop-entries n es rest (getdata_entry n e t) hs

-- The answers to what is known, by its type.
abbrev pub answers : Node → List Entry → List (Bytes × Bytes)
answers n [] = []
answers n ((type, hash) ∷ es) =
    if n.knows type hash
    then (if type == 1
        then (codes "tx", n.get_inventory type hash) ∷ answers n es
        else if type == 2
        then (codes "block", n.get_inventory type hash) ∷ answers n es
        else answers n es)
    else answers n es

abbrev pub unknown : Node → List Entry → List Entry
unknown n [] = []
unknown n ((type, hash) ∷ es) =
    if n.knows type hash then unknown n es else (type, hash) ∷ unknown n es

getdata_all :
    (n : Node) (es : List Entry) (todl : List Bytes) (out : List (Bytes × Bytes)) (fs : List Entry)
    → handle_all (getdata_entry n) es (record { block_todl_list = todl; outbox = out }, fs)
      ≡ (record { block_todl_list = todl; outbox = out ++ answers n es }, fs ++ unknown n es)
unfolding getdata_entry send_known send_packet
getdata_all n [] todl out fs = rw (append-nil out, append-nil fs) refl
getdata_all n ((type, hash) ∷ es) todl out fs =
    let answered = λ (name : Bytes).
      getdata_all n es todl (out ++ ((name, n.get_inventory type hash) ∷ [])) fs
      ∙ ap (λ t. (record { block_todl_list = todl; outbox = t }, fs ++ unknown n es))
          (append_assoc out ((name, n.get_inventory type hash) ∷ []) (answers n es)) in
    elim (Bool-cases (n.knows type hash)) [
      | inl k ↦ elim (Bool-cases (type == 1)) [
        | inl a ↦ rw (k, a) (answered (codes "tx"))
        | inr a ↦ elim (Bool-cases (type == 2)) [
          | inl b ↦ rw (k, a, b) (answered (codes "block"))
          | inr b ↦ rw (k, a, b) (getdata_all n es todl out fs)
        ]
      ]
      | inr k ↦ rw k (
          getdata_all n es todl out (fs ++ ((type, hash) ∷ []))
          ∙ ap (λ t. (record { block_todl_list = todl; outbox = out ++ answers n es }, t))
              (append_assoc fs ((type, hash) ∷ []) (unknown n es)))
    ]

-- A "getdata" that lists entries, with a count as above, is answered in order for each transaction and
-- block that is known, and then by one "notfound" that lists what is not.
pub bitcoin_packet_getdata-listing :
    (n : Node) (es : List Entry) (c : Client)
    → All IsEntry es
    → 36 * length es < 2 ^ 63
    → bitcoin_packet_getdata n (listing es) c ≡ record c {
      outbox = c.outbox ++ (answers n es ++ packets (codes "notfound") (unknown n es));
    }
unfolding bitcoin_packet_getdata rounds
bitcoin_packet_getdata-listing n es c h k =
    let read : read_int (listing es) ≡ (length es, write_entries es) =
      read_int-write_int (length es) (write_entries es) (omega (arith, k)) in
    let loop : getdata_loop n (length es) (write_entries es) (c, [])
        ≡ (record c { outbox = c.outbox ++ answers n es }, unknown n es) =
      ap (λ (t : Bytes). getdata_loop n (length es) t (c, [])) (sym (append-nil (write_entries es)))
      ∙ getdata_loop-entries n es [] (c, []) h
      ∙ getdata_all n es c.block_todl_list c.outbox [] in
    ap
      (λ (q : ℕ × Bytes).
        (let (c', fs) = getdata_loop n (if ltb q.0 (2 ^ 63) then q.0 else 0) q.1 (c, []) in
          if too_short q.0 (listing es) then c else send_entries (codes "notfound") fs c'))
      read
    ∙ rw (too_short-listing es h k, lt→ltb (length es) (2 ^ 63) (omega (arith, k)))
        (ap (λ (q : Client × List Entry). send_entries (codes "notfound") q.1 q.0) loop
          ∙ send_entries-packets (codes "notfound") (unknown n es)
              (record c { outbox = c.outbox ++ answers n es })
          ∙ ap (λ t. record c { outbox = t })
              (append_assoc c.outbox (answers n es) (packets (codes "notfound") (unknown n es))))
