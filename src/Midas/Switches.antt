-- ===== src/Midas/Switches.antt =====
-- What `switchOutput` leaves in each data file and in the checkpoint.
use pinetd.Prelude.{
  ◌≡◌, refl, ap, ◌∙◌, if◌then◌else◌, Option, none, some, [], ◌++◌, true, false, Bytes, append_assoc,
  Dict, find, put, find-put, remove, bytes_eq, bytes_eq_refl, bytes_cases, inl, inr,
}
use pinetd.Prelude.Files.{content, content-put, content-remove}
use pinetd.Midas.{
  File, Midas, write_file, open_file, rename, rename_found, c_switch, c_abort, data_name,
  checkpoint_name, checkpoint, write_end, end_old, switch_output, switch,
}

-- The end of a file before the file of a time.
abbrev pub ending : Bytes → Bytes
ending now = c_switch (data_name now) ++ c_abort

-- The output is the open data file of a time.
abbrev pub IsOutput : Bytes → Midas → Type 0
IsOutput t m = m.output ≡ record { path = data_name t; is_open = true }

not_checkpoint_name : (t now : Bytes) → bytes_eq (checkpoint_name now) (data_name t) ≡ false
unfolding checkpoint_name data_name bytes_eq
not_checkpoint_name t now = refl

not_checkpoint : (t : Bytes) → bytes_eq checkpoint (data_name t) ≡ false
unfolding data_name bytes_eq
not_checkpoint t = refl

not_data_name : (t now : Bytes) → bytes_eq (data_name t) (checkpoint_name now) ≡ false
unfolding checkpoint_name data_name bytes_eq
not_data_name t now = refl

pub data_not_checkpoint : (t : Bytes) → bytes_eq (data_name t) checkpoint ≡ false
unfolding data_name bytes_eq
data_not_checkpoint t = refl

-- A write to an open file appends to it, and to no other.
pub content-write_file :
    (p j dat : Bytes) (files : Dict Bytes)
    → content j (write_file (record { path = p; is_open = true }) dat files)
      ≡ (if bytes_eq p j then content j files ++ dat else content j files)
unfolding write_file
content-write_file p j dat files =
    content-put p j (content p files ++ dat) files ∙ (elim (bytes_cases p j) [
      | inl (q, e) ↦ rw e (ap (λ (x : Bytes). content x files ++ dat) q)
      | inr (q, e) ↦ rw e refl
    ])

content-write_end :
    (p j now : Bytes) (files : Dict Bytes)
    → content j (write_end (record { path = p; is_open = true }) (data_name now) files)
      ≡ (if bytes_eq p j then content j files ++ ending now else content j files)
unfolding write_end
content-write_end p j now files =
    let f : File = record { path = p; is_open = true } in
    content-write_file p j c_abort (write_file f (c_switch (data_name now)) files)
    ∙ rw (content-write_file p j (c_switch (data_name now)) files)
        (elim (bytes_eq p j)
          as (λ b.
            (if b
              then (if b then content j files ++ c_switch (data_name now) else content j files)
                ++ c_abort
              else (if b then content j files ++ c_switch (data_name now) else content j files))
            ≡ (if b then content j files ++ ending now else content j files)) [
              | true ↦ append_assoc (content j files) (c_switch (data_name now)) c_abort
              | false ↦ refl
            ])

content-rename_found :
    (o : Option Bytes) (from to j : Bytes) (files : Dict Bytes)
    → bytes_eq from j ≡ false
    → bytes_eq to j ≡ false
    → content j (rename_found o from to files) ≡ content j files
unfolding rename_found
content-rename_found none from to j files e e' = refl
content-rename_found (some c) from to j files e e' =
    content-put to j c (remove from files) ∙ rw (e', content-remove from j files, e) refl

content-renamed :
    (from to c : Bytes) (files : Dict Bytes)
    → find from files ≡ some c
    → content to (rename from to files) ≡ c
unfolding rename rename_found
content-renamed from to c files e =
    rw e (content-put to to c (remove from files) ∙ rw (bytes_eq_refl to) refl)

-- The files in the course of `switchOutput`.
abbrev opened : Bytes → Dict Bytes → Dict Bytes
opened now files = put (checkpoint_name now) [] (put (data_name now) [] files)

abbrev ended : Bytes → Bytes → Dict Bytes → Dict Bytes
ended t now files =
    write_end (record { path = data_name t; is_open = true }) (data_name now) (opened now files)

switched :
    (t now : Bytes) (m : Midas)
    → IsOutput t m
    → switch now true true m ≡ record m {
      output = record { path = data_name now; is_open = true };
      files = rename (checkpoint_name now) checkpoint (
          write_end
            (record { path = checkpoint_name now; is_open = true })
            (data_name now)
            (ended t now m.files));
    }
unfolding switch switch_output open_file end_old
switched t now m e = rw e refl

content-opened :
    (now t : Bytes) (files : Dict Bytes)
    → content (data_name t) (opened now files)
      ≡ (if bytes_eq (data_name now) (data_name t) then [] else content (data_name t) files)
content-opened now t files =
    content-put (checkpoint_name now) (data_name t) [] (put (data_name now) [] files)
    ∙ rw (not_checkpoint_name t now) (content-put (data_name now) (data_name t) [] files)

-- What a data file holds after a switch: the new one nothing, the old one its end, and the others what they held.
pub content-switch :
    (t now j : Bytes) (m : Midas)
    → IsOutput t m
    → content (data_name j) (switch now true true m).files ≡ (
        if bytes_eq (data_name t) (data_name j)
        then (if bytes_eq (data_name now) (data_name j) then [] else content (data_name j) m.files)
          ++ ending now
        else if bytes_eq (data_name now) (data_name j)
        then []
        else content (data_name j) m.files)
unfolding rename
content-switch t now j m e =
    let files1 = ended t now m.files in
    let files2 =
      write_end (record { path = checkpoint_name now; is_open = true }) (data_name now) files1 in
    ap (λ (x : Midas). content (data_name j) x.files) (switched t now m e)
    ∙ content-rename_found (find (checkpoint_name now) files2) (checkpoint_name now) checkpoint
        (data_name j) files2 (not_checkpoint_name j now) (not_checkpoint j)
    ∙ content-write_end (checkpoint_name now) (data_name j) now files1
    ∙ rw (not_checkpoint_name j now) (
        content-write_end (data_name t) (data_name j) now (opened now m.files)
        ∙ rw (content-opened now j m.files) refl)

pub IsOutput-switch :
    (t now : Bytes) (m : Midas) → IsOutput t m → IsOutput now (switch now true true m)
IsOutput-switch t now m e = ap (λ (x : Midas). x.output) (switched t now m e)

content-ended :
    (t now : Bytes) (files : Dict Bytes) → content (checkpoint_name now) (ended t now files) ≡ []
content-ended t now files =
    content-write_end (data_name t) (checkpoint_name now) now (opened now files)
    ∙ rw (not_data_name t now) (
        content-put (checkpoint_name now) (checkpoint_name now) [] (put (data_name now) [] files)
        ∙ rw (bytes_eq_refl (checkpoint_name now)) refl)

find-write_end :
    (p now : Bytes) (files : Dict Bytes)
    → find p (write_end (record { path = p; is_open = true }) (data_name now) files)
      ≡ some (content p files ++ ending now)
unfolding write_end write_file
find-write_end p now files =
    let c = content p files ++ c_switch (data_name now) in
    find-put p p (content p (put p c files) ++ c_abort) (put p c files)
    ∙ rw (bytes_eq_refl p, content-put p p c files, bytes_eq_refl p)
        (ap some (append_assoc (content p files) (c_switch (data_name now)) c_abort))

pub content-checkpoint-switch :
    (t now : Bytes) (m : Midas)
    → IsOutput t m
    → content checkpoint (switch now true true m).files ≡ ending now
content-checkpoint-switch t now m e =
    let files1 = ended t now m.files in
    let check : File = record { path = checkpoint_name now; is_open = true } in
    ap (λ (x : Midas). content checkpoint x.files) (switched t now m e)
    ∙ content-renamed (checkpoint_name now) checkpoint
        (content (checkpoint_name now) files1 ++ ending now)
        (write_end check (data_name now) files1) (find-write_end (checkpoint_name now) now files1)
    ∙ ap (λ (c : Bytes). c ++ ending now) (content-ended t now m.files)
