-- ===== src/Echo.antt =====
-- mod/daemon/echo: what a client sends is written to its socket, past the buffer of ClientTcp.
use pinetd.Prelude.{
  ℕ, ◌≡◌, refl, ap, ◌∙◌, Option, none, some, List, [], ◌∷◌, ◌++◌, Bytes, append_assoc, min, length,
  ◌==◌, Bool-cases, inl, inr, take, drop, take-append-drop,
}
use pinetd.Core.ClientTcp.{ClientTcp, close, do_read, read_limit}

-- `ModEchoClient::handleBuffer`, on what its socket was given to write.
unfoldable pub handle_buffer : Bytes → Bytes → Bytes
handle_buffer buf out = out ++ buf

-- A read that hands on what it got.
unfoldable pub hand_on : Option Bytes → Bytes → Bytes
unfolding handle_buffer
hand_on none out = out
hand_on (some buf) out = handle_buffer buf out

unfoldable pub on_read : Option ℕ → ClientTcp × Bytes → ClientTcp × Bytes
unfolding do_read hand_on
on_read answer (c, out) = let (c', got) = do_read answer c in (c', hand_on got out)

on_read_keeps :
    (answer : Option ℕ) (c : ClientTcp) (out : Bytes)
    → (on_read answer (c, out)).1 ++ (on_read answer (c, out)).0.input ≡ out ++ c.input
unfolding on_read hand_on do_read close handle_buffer
on_read_keeps none c out = refl
on_read_keeps (some n) c out =
    let got = min n (min (length c.input) read_limit) in
    elim (Bool-cases (got == 0)) [
      | inl e ↦ rw e refl
      | inr e ↦ rw e (
          append_assoc out (take got c.input) (drop got c.input)
          ∙ ap (λ (t : Bytes). out ++ t) (take-append-drop got c.input))
    ]

abbrev pub reads : List (Option ℕ) → ClientTcp × Bytes → ClientTcp × Bytes
reads [] q = q
reads (a ∷ rest) q = reads rest (on_read a q)

-- However the input is read, what was echoed is what was read, in order: with what still waits to be read it is
-- what the client sent.
pub reads_echo :
    (answers : List (Option ℕ)) (c : ClientTcp) (out : Bytes)
    → (reads answers (c, out)).1 ++ (reads answers (c, out)).0.input ≡ out ++ c.input
reads_echo [] c out = refl
reads_echo (a ∷ rest) c out =
    reads_echo rest (on_read a (c, out)).0 (on_read a (c, out)).1 ∙ on_read_keeps a c out
