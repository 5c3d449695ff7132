-- ===== src/Netflow/Records.antt =====
-- A minute's file, read back.
use pinetd.Prelude.{
  ℕ, zero, suc, ◌≤◌, ◌<◌, ◌^◌, ◌&&◌, ◌≡◌, refl, sym, ap, ◌∙◌, if◌then◌else◌, List, [], ◌∷◌, ◌++◌,
  Bool, true, false, Bytes, length, length-append, append_assoc, append-nil, Dict, find, bytes_eq,
  bytes_cases, All, arith, inl, inr,
}
use pinetd.Prelude.Files.{content, content-put}
use pinetd.DataStream.{
  be_bytes, read_be, read_raw, read_be-be_bytes, read_raw-append, length-be_bytes,
}
use pinetd.Netflow.{spool_name, write_bytes, incoming_datagram}

-- A datagram that came at a time, with the file's answer.
pub record Arrival : Type 0 where
  pub now : ℕ
  pub opens : Bool
  pub datagram : Bytes

abbrev pub receive : List Arrival → Dict Bytes → Dict Bytes
receive [] files = files
receive (a ∷ rest) files = receive rest (incoming_datagram a.now a.opens a.datagram files)

-- The datagrams for a file, of those whose file could be opened.
abbrev pub of_file : Bytes → List Arrival → List Bytes
of_file path [] = []
of_file path (a ∷ rest) =
    let others = of_file path rest in
    if a.opens && bytes_eq (spool_name a.now) path then a.datagram ∷ others else others

abbrev pub write_all : List Bytes → Bytes
write_all [] = []
write_all (d ∷ ds) = write_bytes d ++ write_all ds

-- A reader of the format: a length of four bytes, and as many bytes.
abbrev pub read_records : ℕ → Bytes → List Bytes
read_records zero bs = []
read_records (suc n) [] = []
read_records (suc n) (b ∷ bs) =
    let (len, rest) = read_be 4 (b ∷ bs) in
    let (dat, rest') = read_raw len rest in dat ∷ read_records n rest'

read_records-cons :
    (n : ℕ) (bs : Bytes)
    → 0 < length bs
    → read_records (suc n) bs ≡ (
        let (len, rest) = read_be 4 bs in
        let (dat, rest') = read_raw len rest in dat ∷ read_records n rest')
read_records-cons n [] h = absurd (omega (arith, h))
read_records-cons n (b ∷ bs) h = refl

record_front :
    (d rest : Bytes) (n : ℕ)
    → length d < 2 ^ 32
    → read_records (suc n) (write_bytes d ++ rest) ≡ d ∷ read_records n rest
unfolding write_bytes
record_front d rest n h =
    let bytes = be_bytes 4 (length d) ++ (d ++ rest) in
    ap (λ (t : Bytes). read_records (suc n) t) (append_assoc (be_bytes 4 (length d)) d rest)
    ∙ read_records-cons n bytes (
        omega
          (arith, length-append (be_bytes 4 (length d)) (d ++ rest), length-be_bytes 4 (length d)))
    ∙ ap (λ (q : ℕ × Bytes). (let (dat, rest') = read_raw q.0 q.1 in dat ∷ read_records n rest'))
        (read_be-be_bytes 4 (length d) (d ++ rest) (omega (arith, h)))
    ∙ ap (λ (q : Bytes × Bytes). q.0 ∷ read_records n q.1) (read_raw-append (length d) d rest refl)

read_records-write_all :
    (ds : List Bytes) (n : ℕ)
    → All (λ d. length d < 2 ^ 32) ds
    → length ds ≤ n
    → read_records n (write_all ds) ≡ ds
read_records-write_all [] zero h l = refl
read_records-write_all [] (suc n) h l = refl
read_records-write_all (d ∷ ds) zero h l = absurd (omega (arith, l))
read_records-write_all (d ∷ ds) (suc n) h l =
    record_front d (write_all ds) n h.0
    ∙ ap (λ (t : List Bytes). d ∷ t) (read_records-write_all ds n h.1 (omega (arith, l)))

content-incoming_datagram :
    (now : ℕ) (opens : Bool) (dat path : Bytes) (files : Dict Bytes)
    → content path (incoming_datagram now opens dat files)
      ≡ content path files
        ++ (if opens && bytes_eq (spool_name now) path then write_bytes dat else [])
unfolding incoming_datagram
content-incoming_datagram now false dat path files = sym (append-nil (content path files))
content-incoming_datagram now true dat path files =
    let name = spool_name now in
    content-put name path (content name files ++ write_bytes dat) files
    ∙ (elim (bytes_cases name path) [
      | inl (p, e) ↦ rw e (ap (λ (q : Bytes). content q files ++ write_bytes dat) p)
      | inr (p, e) ↦ rw e (sym (append-nil (content path files)))
    ])

write_all-if :
    (b : Bool) (d : Bytes) (ds : List Bytes)
    → (if b then write_bytes d else []) ++ write_all ds ≡ write_all (if b then d ∷ ds else ds)
write_all-if true d ds = refl
write_all-if false d ds = refl

content-receive :
    (arrivals : List Arrival) (path : Bytes) (files : Dict Bytes)
    → content path (receive arrivals files)
      ≡ content path files ++ write_all (of_file path arrivals)
content-receive [] path files = sym (append-nil (content path files))
content-receive (a ∷ rest) path files =
    let here = a.opens && bytes_eq (spool_name a.now) path in
    content-receive rest path (incoming_datagram a.now a.opens a.datagram files)
    ∙ ap (λ (t : Bytes). t ++ write_all (of_file path rest))
        (content-incoming_datagram a.now a.opens a.datagram path files)
    ∙ append_assoc (content path files) (if here then write_bytes a.datagram else [])
        (write_all (of_file path rest))
    ∙ ap (λ (t : Bytes). content path files ++ t) (write_all-if here a.datagram (of_file path rest))

-- Every file of the spool, once any datagrams have come, reads back as the datagrams that came in its minute
-- while it could be opened, in order, each shorter than 2^32 bytes.
pub read_records-receive :
    (arrivals : List Arrival) (path : Bytes) (n : ℕ)
    → All (λ d. length d < 2 ^ 32) (of_file path arrivals)
    → length (of_file path arrivals) ≤ n
    → read_records n (content path (receive arrivals [])) ≡ of_file path arrivals
unfolding content find
read_records-receive arrivals path n h l =
    ap (λ (t : Bytes). read_records n t) (content-receive arrivals path [])
    ∙ read_records-write_all (of_file path arrivals) n h l
