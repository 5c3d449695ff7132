-- ===== src/Midas/Segments.antt =====
-- What each data file and the checkpoint hold.
use pinetd.Prelude.{
  ◌≡◌, refl, sym, ap, ◌∙◌, if◌then◌else◌, List, [], ◌∷◌, ◌++◌, Bool, true, false, Bytes,
  append_assoc, append-nil, bytes_eq, bytes_eq_refl, All,
}
use pinetd.Prelude.Files.{content}
use pinetd.Midas.{File, Midas, write_file, data_name, checkpoint, switch, call, mq_message_received}
use pinetd.Midas.Switches.{
  ending, IsOutput, data_not_checkpoint, content-write_file, content-switch, IsOutput-switch,
  content-checkpoint-switch,
}

-- A message, or a switch, for which both files could be opened.
pub data Event : Type 0 where
  message : Bytes → Event
  next_file : Bytes → Event

abbrev pub run : List Event → Midas → Midas
run [] m = m
run (message p ∷ es) m = run es (mq_message_received p m)
run (next_file now ∷ es) m = run es (switch now true true m)

-- The messages up to the next switch, and the end of the file, if it has one.
abbrev pub segment : List Event → Bytes
segment [] = []
segment (message p ∷ es) = p ++ segment es
segment (next_file now ∷ es) = ending now

-- The times of the switches, and the last of them.
abbrev pub times : List Event → List Bytes
times [] = []
times (message p ∷ es) = times es
times (next_file now ∷ es) = now ∷ times es

abbrev pub last_time : Bytes → List Event → Bytes
last_time now [] = now
last_time now (message p ∷ es) = last_time now es
last_time now (next_file t ∷ es) = last_time t es

content-message :
    (t p j : Bytes) (m : Midas)
    → IsOutput t m
    → content j (mq_message_received p m).files
      ≡ (if bytes_eq (data_name t) j then content j m.files ++ p else content j m.files)
unfolding mq_message_received call
content-message t p j m e =
    ap (λ (f : File). content j (write_file f p m.files)) e
    ∙ content-write_file (data_name t) j p m.files

IsOutput-message : (t p : Bytes) (m : Midas) → IsOutput t m → IsOutput t (mq_message_received p m)
unfolding mq_message_received call
IsOutput-message t p m e = e

joined :
    (b : Bool) (c a s : Bytes)
    → (if b then c ++ a else c) ++ (if b then s else []) ≡ c ++ (if b then a ++ s else [])
joined true c a s = append_assoc c a s
joined false c a s = refl

joined_last :
    (b : Bool) (c a : Bytes) → (if b then c ++ a else c) ++ [] ≡ c ++ (if b then a else [])
joined_last true c a = append-nil (c ++ a)
joined_last false c a = refl

joined_none : (b : Bool) (c : Bytes) → c ≡ c ++ (if b then [] else [])
joined_none true c = sym (append-nil c)
joined_none false c = sym (append-nil c)

-- A file that no later switch names gets what comes until the next switch, if it is the output.
content-run :
    (es : List Event) (t j : Bytes) (m : Midas)
    → IsOutput t m
    → All (λ now. bytes_eq (data_name now) (data_name j) ≡ false) (times es)
    → content (data_name j) (run es m).files
      ≡ content (data_name j) m.files
        ++ (if bytes_eq (data_name t) (data_name j) then segment es else [])
content-run [] t j m e h =
    joined_none (bytes_eq (data_name t) (data_name j)) (content (data_name j) m.files)
content-run (message p ∷ es) t j m e h =
    content-run es t j (mq_message_received p m) (IsOutput-message t p m e) h
    ∙ rw (content-message t p (data_name j) m e) (
        joined (bytes_eq (data_name t) (data_name j)) (content (data_name j) m.files) p
          (segment es))
content-run (next_file now ∷ es) t j m e h =
    content-run es now j (switch now true true m) (IsOutput-switch t now m e) h.1
    ∙ rw (content-switch t now j m e, h.0)
        (joined_last (bytes_eq (data_name t) (data_name j)) (content (data_name j) m.files)
          (ending now))

content-checkpoint-run :
    (es : List Event) (t : Bytes) (m : Midas)
    → IsOutput t m
    → content checkpoint m.files ≡ ending t
    → content checkpoint (run es m).files ≡ ending (last_time t es)
content-checkpoint-run [] t m e h = h
content-checkpoint-run (message p ∷ es) t m e h =
    content-checkpoint-run es t (mq_message_received p m) (IsOutput-message t p m e)
      (content-message t p checkpoint m e ∙ rw (data_not_checkpoint t) h)
content-checkpoint-run (next_file now ∷ es) t m e h =
    content-checkpoint-run es now (switch now true true m) (IsOutput-switch t now m e)
      (content-checkpoint-switch t now m e)

-- After a switch at a time that names a new file, whatever follows, while every file can be opened and no later
-- switch names that file again: the file holds the messages up to the next switch, each once and in order, and
-- then the name of the next file, and the checkpoint holds the name of the file that was opened last.
pub run-segment :
    (es : List Event) (t now : Bytes) (m : Midas)
    → IsOutput t m
    → bytes_eq (data_name t) (data_name now) ≡ false
    → All (λ u. bytes_eq (data_name u) (data_name now) ≡ false) (times es)
    → (content (data_name now) (run (next_file now ∷ es) m).files ≡ segment es)
      × (content checkpoint (run (next_file now ∷ es) m).files ≡ ending (last_time now es))
run-segment es t now m e n h =
    let m' = switch now true true m in
    let e' : IsOutput now m' = IsOutput-switch t now m e in
    (
      content-run es now now m' e' h
          ∙ rw (content-switch t now now m e, n, bytes_eq_refl (data_name now)) refl,
      content-checkpoint-run es now m' e' (content-checkpoint-switch t now m e),
    )
