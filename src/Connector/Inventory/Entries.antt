-- ===== src/Connector/Inventory/Entries.antt =====
-- The entries of "inv" and "getdata" packets, through their printer and their parser.
use pinetd.Prelude.{
  ◌*◌, ◌%◌, ◌^◌, ◌≤◌, ◌<◌, ◌≡◌, refl, ap, ◌∙◌, lt→ltb, le→ltb, List, [], ◌∷◌, ◌++◌, false, Bytes,
  length, All, append_assoc, append-nil, length-append, arith,
}
use pinetd.DataStream.{le_bytes, length-le_bytes, read_le-le_bytes}
use pinetd.Bitcoin.Stream.{write_int}
use pinetd.Bitcoin.Stream.RoundTrip.{read_data-append}
use pinetd.Connector.Inventory.{
  Client, Entry, read_entry, write_entry, write_entries, too_short, send_packet, send_entries,
}

-- The range of the type, and a hash of 32 bytes.
abbrev pub IsEntry : Entry → Type 0
IsEntry (type, hash) = (type < 2 ^ 32) × (length hash ≡ 32)

-- The packet that lists entries.
abbrev pub listing : List Entry → Bytes
listing es = write_int (length es) ++ write_entries es

pub read_entry-write_entry :
    (e : Entry) (rest : Bytes) → IsEntry e → read_entry (write_entry e ++ rest) ≡ (e, rest)
unfolding read_entry write_entry
read_entry-write_entry (type, hash) rest (t, h) = simp (
  append_assoc,
  read_le-le_bytes 4 type (hash ++ rest) t,
  read_data-append 32 hash rest h (omega arith),
)

pub length-write_entries :
    (es : List Entry) → All IsEntry es → length (write_entries es) ≡ 36 * length es
unfolding write_entries write_entry
length-write_entries [] h = refl
length-write_entries ((type, hash) ∷ es) (h, hs) = omega (
  arith,
  h.1,
  length-append (le_bytes 4 type ++ hash) (write_entries es),
  length-append (le_bytes 4 type) hash,
  length-le_bytes 4 type,
  length-write_entries es hs,
)

-- A list of entries that is not too long for the product passes the test of its length.
pub too_short-listing :
    (es : List Entry)
    → All IsEntry es
    → 36 * length es < 2 ^ 63
    → too_short (length es) (listing es) ≡ false
unfolding too_short
too_short-listing es h n =
    let size = length-append (write_int (length es)) (write_entries es) in
    let whole : (36 * length es) % 2 ^ 64 ≡ 36 * length es = omega (arith, n) in
    let fits : 36 * length es ≤ length (listing es) =
      omega (arith, size, length-write_entries es h) in
    rw
      (
        whole,
        lt→ltb (36 * length es) (2 ^ 63) n,
        le→ltb (length (listing es)) (36 * length es) fits,
      )
      refl

-- The entries handled one after the other.
abbrev pub handle_all : {S : Type 0} → (Entry → S → S) → List Entry → S → S
handle_all f [] x = x
handle_all f (e ∷ es) x = handle_all f es (f e x)

pub entry_first :
    (e : Entry) (es : List Entry) (rest : Bytes)
    → IsEntry e
    → read_entry ((write_entry e ++ write_entries es) ++ rest) ≡ (e, write_entries es ++ rest)
entry_first e es rest h =
    ap read_entry (append_assoc (write_entry e) (write_entries es) rest)
    ∙ read_entry-write_entry e (write_entries es ++ rest) h

-- The list of entries that is sent, if there is one.
abbrev pub packets : Bytes → List Entry → List (Bytes × Bytes)
packets type [] = []
packets type (e ∷ es) = (type, listing (e ∷ es)) ∷ []

pub send_entries-packets :
    (type : Bytes) (es : List Entry) (c : Client)
    → send_entries type es c ≡ record c { outbox = c.outbox ++ packets type es }
unfolding send_entries send_packet
send_entries-packets type [] c = rw (append-nil c.outbox) refl
send_entries-packets type (e ∷ es) c = refl
