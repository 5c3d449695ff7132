-- ===== src/Connector/Inventory/Requests.antt =====
-- What a client asks for after an "inv".
use pinetd.Prelude.{
  ℕ, ◌*◌, ◌^◌, ◌<◌, ◌≡◌, refl, sym, ap, ◌∙◌, ltb, lt→ltb, ◌==◌, if◌then◌else◌, List, [], ◌∷◌, ◌++◌,
  Bool, true, false, Bytes, codes, length, All, append_assoc, append-nil, length-append, Bool-cases,
  inl, inr, arith,
}
use pinetd.Bitcoin.Stream.{read_int}
use pinetd.Bitcoin.Stream.RoundTrip.{read_int-write_int}
use pinetd.Connector.Inventory.{
  Node, Client, Entry, write_entries, too_short, rounds, send_entries, inv_entry, inv_loop,
  bitcoin_packet_inv,
}
use pinetd.Connector.Inventory.Entries.{
  IsEntry, listing, too_short-listing, handle_all, entry_first, packets, send_entries-packets,
}

-- What is asked for: all that is not known, but of the blocks only the first, and none while another
-- waits.
abbrev pub requested : Node → Bool → List Entry → List Entry
requested n waiting [] = []
requested n waiting ((type, hash) ∷ es) =
    if n.knows type hash
    then requested n waiting es
    else if type == 2
    then (if waiting then requested n true es else (type, hash) ∷ requested n true es)
    else (type, hash) ∷ requested n waiting es

-- The blocks that are not known, all of which are to be fetched.
abbrev pub to_fetch : Node → List Entry → List Bytes
to_fetch n [] = []
to_fetch n ((type, hash) ∷ es) =
    if n.knows type hash
    then to_fetch n es
    else if type == 2
    then hash ∷ to_fetch n es
    else to_fetch n es

abbrev pub is_waiting : List Bytes → Bool
is_waiting [] = false
is_waiting (b ∷ bs) = true

inv_loop-entries :
    (n : Node) (es : List Entry) (rest : Bytes) (t : Client × List Entry)
    → All IsEntry es
    → inv_loop n (length es) (write_entries es ++ rest) t ≡ handle_all (inv_entry n) es t
unfolding inv_loop write_entries
inv_loop-entries n [] rest t h = refl
inv_loop-entries n (e ∷ es) rest t (h, hs) =
    ap (λ (q : Entry × Bytes). inv_loop n (length es) q.1 (inv_entry n q.0 t))
      (entry_first e es rest h)
    ∙ inv_loop-entries n es rest (inv_entry n e t) hs

-- A block that is not known is put behind those to fetch, and asked for if it is alone.
inv_block :
    (n : Node) (type : ℕ) (hash : Bytes) (es : List Entry) (out : List (Bytes × Bytes))
    (fs : List Entry)
    → ((ts : List Bytes) (gs : List Entry)
        → handle_all (inv_entry n) es (record { block_todl_list = ts; outbox = out }, gs) ≡ (
          record { block_todl_list = ts ++ to_fetch n es; outbox = out },
          gs ++ requested n (is_waiting ts) es,
        ))
    → (todl : List Bytes)
    → handle_all (inv_entry n) es (
        if ltb 1 (length (todl ++ (hash ∷ [])))
        then (record { block_todl_list = todl ++ (hash ∷ []); outbox = out }, fs)
        else (
          record { block_todl_list = todl ++ (hash ∷ []); outbox = out },
          fs ++ ((type, hash) ∷ []),
        ))
      ≡ (
        record { block_todl_list = todl ++ (hash ∷ to_fetch n es); outbox = out },
        fs ++ (if is_waiting todl then requested n true es else (type, hash) ∷ requested n true es),
      )
inv_block n type hash es out fs later [] =
    later (hash ∷ []) (fs ++ ((type, hash) ∷ []))
    ∙ ap (λ t. (record { block_todl_list = hash ∷ to_fetch n es; outbox = out }, t))
        (append_assoc fs ((type, hash) ∷ []) (requested n true es))
inv_block n type hash es out fs later (x ∷ xs) =
    let more : ltb 1 (length ((x ∷ xs) ++ (hash ∷ []))) ≡ true =
      lt→ltb 1 _ (omega (arith, length-append xs (hash ∷ []))) in
    rw more (
      later ((x ∷ xs) ++ (hash ∷ [])) fs
      ∙ ap (λ t. (record { block_todl_list = t; outbox = out }, fs ++ requested n true es))
          (append_assoc (x ∷ xs) (hash ∷ []) (to_fetch n es)))

inv_all :
    (n : Node) (es : List Entry) (todl : List Bytes) (out : List (Bytes × Bytes)) (fs : List Entry)
    → handle_all (inv_entry n) es (record { block_todl_list = todl; outbox = out }, fs) ≡ (
      record { block_todl_list = todl ++ to_fetch n es; outbox = out },
      fs ++ requested n (is_waiting todl) es,
    )
unfolding inv_entry
inv_all n [] todl out fs = rw (append-nil todl, append-nil fs) refl
inv_all n ((type, hash) ∷ es) todl out fs = elim (Bool-cases (n.knows type hash)) [
  | inl k ↦ rw k (inv_all n es todl out fs)
  | inr k ↦ elim (Bool-cases (type == 2)) [
    | inl b ↦ rw (k, b) (inv_block n type hash es out fs (λ ts gs. inv_all n es ts out gs) todl)
    | inr b ↦
        rw (k, b)
          (inv_all n es todl out (fs ++ ((type, hash) ∷ []))
            ∙ ap (λ t. (record { block_todl_list = todl ++ to_fetch n es; outbox = out }, t))
                (append_assoc fs ((type, hash) ∷ []) (requested n (is_waiting todl) es)))
  ]
]

-- After an "inv" that lists entries, with a count whose product with 36 is in the range of a qint64,
-- every block that is not known is to be fetched, and one "getdata" asks, in order, for all other
-- entries that are not known, and for the first of those blocks unless one was waiting already.
pub bitcoin_packet_inv-listing :
    (n : Node) (es : List Entry) (c : Client)
    → All IsEntry es
    → 36 * length es < 2 ^ 63
    → bitcoin_packet_inv n (listing es) c ≡ record {
      block_todl_list = c.block_todl_list ++ to_fetch n es;
      outbox =
          c.outbox ++ packets (codes "getdata") (requested n (is_waiting c.block_todl_list) es);
    }
unfolding bitcoin_packet_inv rounds
bitcoin_packet_inv-listing n es c h k =
    let read : read_int (listing es) ≡ (length es, write_entries es) =
      read_int-write_int (length es) (write_entries es) (omega (arith, k)) in
    let loop : inv_loop n (length es) (write_entries es) (c, []) ≡ (
      record c { block_todl_list = c.block_todl_list ++ to_fetch n es },
      requested n (is_waiting c.block_todl_list) es,
    ) =
      ap (λ (t : Bytes). inv_loop n (length es) t (c, [])) (sym (append-nil (write_entries es)))
      ∙ inv_loop-entries n es [] (c, []) h
      ∙ inv_all n es c.block_todl_list c.outbox [] in
    ap
      (λ (q : ℕ × Bytes).
        (let (c', fs) = inv_loop n (if ltb q.0 (2 ^ 63) then q.0 else 0) q.1 (c, []) in
          if too_short q.0 (listing es) then c else send_entries (codes "getdata") fs c'))
      read
    ∙ rw (too_short-listing es h k, lt→ltb (length es) (2 ^ 63) (omega (arith, k)))
        (ap (λ (q : Client × List Entry). send_entries (codes "getdata") q.1 q.0) loop
          ∙ send_entries-packets (codes "getdata") (requested n (is_waiting c.block_todl_list) es)
              (record c { block_todl_list = c.block_todl_list ++ to_fetch n es }))
