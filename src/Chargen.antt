-- ===== src/Chargen.antt =====
-- mod/daemon/chargen: the lines of the character generator, which mod/daemon/chargensame makes by the
-- same text. RFC 864 is the reference that the source names.
pub mod Lines
pub mod Same
use pinetd.Prelude.{ℕ, zero, suc, ◌+◌, ◌-◌, ◌%◌, List, [], ◌∷◌, ◌++◌, Bytes, replicate}

-- `buf[i] = b`: an array that is too short is filled up.
unfoldable pub set_at : ℕ → ℕ → Bytes → Bytes
set_at zero b [] = b ∷ []
set_at zero b (x ∷ xs) = b ∷ xs
set_at (suc i) b [] = 0 ∷ set_at i b []
set_at (suc i) b (x ∷ xs) = x ∷ set_at i b xs

-- The rounds of the loop from i on, k of them.
unfoldable pub fill : ℕ → ℕ → ℕ → Bytes → Bytes
unfolding set_at
fill zero i pos buf = buf
fill (suc k) i pos buf = fill k (suc i) pos (set_at i (32 + (i + pos) % 95) buf)

-- The buffer of `nextLine`, with CR and LF.
unfoldable pub next_buf : ℕ → Bytes
unfolding fill
next_buf pos = set_at 74 10 (set_at 73 13 (fill 72 0 pos (replicate 74 0)))

-- A client of chargen, with what was written.
pub record Generator : Type 0 where
  pub pos : ℕ
  pub sent : Bytes

-- The constructors.
unfoldable pub new_generator : Generator
new_generator = record { pos = 1; sent = [] }

-- `nextLine`: one shot of the timer.
unfoldable pub next_line : Generator → Generator
unfolding next_buf
next_line g = record { pos = (g.pos + 1) % 95; sent = g.sent ++ next_buf g.pos }

-- n shots of the timer.
unfoldable pub next_lines : ℕ → Generator → Generator
unfolding next_line
next_lines zero g = g
next_lines (suc n) g = next_lines n (next_line g)
