-- ===== src/Core/ClientTcp/Stream.antt =====
-- ClientTcp: sequences of calls, and the bytes that are written.
use pinetd.Prelude.{
  ℕ, ◌*◌, ◌≤◌, ◌<◌, ◌≡◌, refl, sym, ap, ◌∙◌, ltb, ◌==◌, List, [], ◌∷◌, ◌++◌, true, false, Option,
  none, some, Bytes, length, take, drop, min, take-append-drop, append-nil, append_assoc,
  length-append, length-take, length-drop, Bool-cases, inl, inr, arith,
}
use Prim.Native.Nat.{max}
use mathlib.Core.Path.{ap₂}
use mathlib.Core.Option.{some-injective}
use pinetd.Core.ClientTcp.{
  ClientTcp, is_empty, close, write_through, write_behind, write, flush_some, flush, do_read,
  read_limit,
}

-- The calls of a connection, each with the socket's answer.
pub data Call : Type 0 where
  writes : Option ℕ → Bytes → Call
  flushes : Option ℕ → Call

unfoldable pub perform : Call → ClientTcp → ClientTcp
perform (writes answer dat) c = write answer dat c
perform (flushes answer) c = flush answer c

unfoldable pub run : List Call → ClientTcp → ClientTcp
run [] c = c
run (k ∷ ks) c = run ks (perform k c)

-- All that the calls were given to write, in order.
abbrev pub written : List Call → Bytes
written [] = []
written (writes answer dat ∷ ks) = dat ++ written ks
written (flushes answer ∷ ks) = written ks

-- A live connection has sent or holds exactly `total`.
abbrev pub Holds : Bytes → ClientTcp → Type 0
Holds total c = c.closed ≡ false → c.sent ++ c.write_buf ≡ total

-- Bytes that are split between the socket and the buffer stay in order.
split_joins :
    (sent taken left total dat : Bytes)
    → sent ++ [] ≡ total
    → taken ++ left ≡ dat
    → (sent ++ taken) ++ left ≡ total ++ dat
split_joins sent taken left total dat e d =
    append_assoc sent taken left ∙ ap₂ (λ x y. x ++ y) (sym (append-nil sent) ∙ e) d

write_through-Holds :
    (answer : Option ℕ) (dat total : Bytes) (c : ClientTcp)
    → c.write_buf ≡ []
    → Holds total c
    → Holds (total ++ dat) (write_through answer dat c)
unfolding write_through close
write_through-Holds none dat total c e h = λ live. absurd (ground arith)
write_through-Holds (some s) dat total c e h = λ live. elim (Bool-cases (s == length dat)) [
  | inl q ↦
      let before : c.sent ++ [] ≡ total = rw e at (h (rw q at live)) in
      rw q (simp e (split_joins c.sent dat [] total dat before (append-nil dat)))
  | inr q ↦
      let before : c.sent ++ [] ≡ total = rw e at (h (rw q at live)) in
      rw q (
        simp e
          (split_joins c.sent (take s dat) (drop s dat) total dat before (take-append-drop s dat)))
]

write_behind-Holds :
    (dat total : Bytes) (c : ClientTcp) → Holds total c → Holds (total ++ dat) (write_behind dat c)
unfolding write_behind close
write_behind-Holds dat total c h = λ live.
    elim (Bool-cases (ltb (1024 * 1024) (length (c.write_buf ++ dat)))) [
      | inl q ↦ absurd (ground arith)
      | inr q ↦ rw q (
          sym (append_assoc c.sent c.write_buf dat)
          ∙ ap (λ (t : Bytes). t ++ dat) (h (rw q at live)))
    ]

nil_of_empty : (b : Bytes) → is_empty b ≡ true → b ≡ []
unfolding is_empty
nil_of_empty [] h = refl
nil_of_empty (x ∷ xs) h = absurd (ground arith)

flush_some-Holds :
    (answer : Option ℕ) (total : Bytes) (c : ClientTcp)
    → Holds total c
    → Holds total (flush_some answer c)
unfolding flush_some close
flush_some-Holds none total c h = λ live. absurd (ground arith)
flush_some-Holds (some s) total c h = λ live.
    append_assoc c.sent (take s c.write_buf) (drop s c.write_buf)
    ∙ ap (λ (t : Bytes). c.sent ++ t) (take-append-drop s c.write_buf)
    ∙ h live

perform-Holds :
    (k : Call) (total : Bytes) (c : ClientTcp)
    → Holds total c
    → Holds (total ++ written (k ∷ [])) (perform k c)
unfolding perform write flush
perform-Holds (writes answer dat) total c h = elim (Bool-cases (is_empty c.write_buf)) [
  | inl e ↦
      rw (e, append-nil dat) (write_through-Holds answer dat total c (nil_of_empty c.write_buf e) h)
  | inr e ↦ rw (e, append-nil dat) (write_behind-Holds dat total c h)
]
perform-Holds (flushes answer) total c h = elim (Bool-cases (is_empty c.write_buf)) [
  | inl e ↦ rw (e, append-nil total) h
  | inr e ↦ rw (e, append-nil total) (flush_some-Holds answer total c h)
]

written_cons : (k : Call) (ks : List Call) → written (k ∷ []) ++ written ks ≡ written (k ∷ ks)
written_cons (writes answer dat) ks = rw (append-nil dat)
written_cons (flushes answer) ks = refl

run-Holds :
    (ks : List Call) (total : Bytes) (c : ClientTcp)
    → Holds total c
    → Holds (total ++ written ks) (run ks c)
unfolding run
run-Holds [] total c h = rw (append-nil total) h
run-Holds (k ∷ ks) total c h =
    let rest = run-Holds ks (total ++ written (k ∷ [])) (perform k c) (perform-Holds k total c h) in
    rw (append_assoc total (written (k ∷ [])) (written ks), written_cons k ks) at rest

-- A new connection over a socket.
abbrev pub fresh : Bytes → ClientTcp
fresh input = record { write_buf = []; sent = []; input = input; closed = false }

-- After any calls of `write` and `flush`, whatever the socket answered to each, a connection that is
-- not closed has sent, or holds in its buffer, exactly the bytes that were written, in their order.
pub run-fresh_complete :
    (ks : List Call) (input : Bytes)
    → (run ks (fresh input)).closed ≡ false
    → (run ks (fresh input)).sent ++ (run ks (fresh input)).write_buf ≡ written ks
run-fresh_complete ks input = run-Holds ks [] (fresh input) (λ live. refl)

write_through_bound :
    (answer : Option ℕ) (dat : Bytes) (c : ClientTcp)
    → c.write_buf ≡ []
    → length (write_through answer dat c).write_buf ≤ length dat
unfolding write_through close
write_through_bound none dat c e = rw e (omega arith)
write_through_bound (some s) dat c e = elim (Bool-cases (s == length dat)) [
  | inl q ↦ rw (q, e) (omega arith)
  | inr q ↦ rw (q, e) (omega (arith, length-drop s dat))
]

-- A write leaves at most 1 MB in the buffer, or what the socket did not take of that one write.
pub write_bound :
    (answer : Option ℕ) (dat : Bytes) (c : ClientTcp)
    → length (write answer dat c).write_buf ≤ max (1024 * 1024) (length dat)
unfolding write write_behind close
write_bound answer dat c = elim (Bool-cases (is_empty c.write_buf)) [
  | inl e ↦
      let b = write_through_bound answer dat c (nil_of_empty c.write_buf e) in rw e (omega arith)
  | inr e ↦ rw e (ground (arith, length-append c.write_buf dat))
]

-- What `doRead` hands to `handleBuffer` is the front of what waits to be read: not empty, at most
-- 10 MB, and with the rest still to be read it makes up all that waited.
pub do_read_splits :
    (answer : Option ℕ) (c : ClientTcp) (buf : Bytes)
    → (do_read answer c).1 ≡ some buf
    → (buf ++ (do_read answer c).0.input ≡ c.input)
      × (length buf ≤ read_limit)
      × (0 < length buf)
      × ((do_read answer c).0.closed ≡ c.closed)
unfolding do_read close
do_read_splits none c buf e = absurd (ground arith)
do_read_splits (some n) c buf e =
    let got = min n (min (length c.input) read_limit) in
    let size = length-take got c.input in
    elim (Bool-cases (got == 0)) [
      | inl q ↦ absurd (ground arith)
      | inr q ↦
          let found : take got c.input ≡ buf = some-injective _ _ (rw q at e) in
          rw (q, ← found) (take-append-drop got c.input, omega arith, ground arith, refl)
    ]
