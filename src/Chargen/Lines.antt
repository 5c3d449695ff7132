-- ===== src/Chargen/Lines.antt =====
-- The character generator: what it sends.
use pinetd.Prelude.{
  ℕ, zero, suc, ◌+◌, ◌%◌, ◌≡◌, refl, sym, ap, ◌∙◌, [], ◌∷◌, ◌++◌, Bytes, length, replicate,
  append_assoc, append-nil, length-append, arith,
}
use pinetd.Chargen.{set_at, fill, next_buf, Generator, new_generator, next_line, next_lines}

-- k characters of the ring of 95, from the n-th on.
abbrev pub ring : ℕ → ℕ → Bytes
ring zero n = []
ring (suc k) n = (32 + n % 95) ∷ ring k (suc n)

-- The line that is sent for a position: 72 characters, and then a zero before CR and LF.
abbrev pub line : ℕ → Bytes
line n = ring 72 n ++ (0 ∷ 13 ∷ 10 ∷ [])

abbrev pub lines : ℕ → ℕ → Bytes
lines zero n = []
lines (suc k) n = line n ++ lines k (suc n)

set_at-append :
    (xs : Bytes) (b : ℕ) (ys : Bytes) (y : ℕ)
    → set_at (length xs) b (xs ++ (y ∷ ys)) ≡ xs ++ (b ∷ ys)
unfolding set_at
set_at-append [] b ys y = refl
set_at-append (x ∷ xs) b ys y = ap (λ t. x ∷ t) (set_at-append xs b ys y)

fill-ring :
    (k i pos : ℕ) (xs ys : Bytes)
    → length xs ≡ i
    → fill k i pos (xs ++ (replicate k 0 ++ ys)) ≡ xs ++ (ring k (i + pos) ++ ys)
unfolding fill
fill-ring zero i pos xs ys h = refl
fill-ring (suc k) i pos xs ys h =
    let b = 32 + (i + pos) % 95 in
    let zs = replicate k 0 ++ ys in
    let put : set_at i b (xs ++ (0 ∷ zs)) ≡ (xs ++ (b ∷ [])) ++ zs =
      ap (λ j. set_at j b (xs ++ (0 ∷ zs))) (sym h)
      ∙ set_at-append xs b zs 0
      ∙ sym (append_assoc xs (b ∷ []) zs) in
    let size : length (xs ++ (b ∷ [])) ≡ suc i = omega (arith, h, length-append xs (b ∷ [])) in
    ap (λ (t : Bytes). fill k (suc i) pos t) put
    ∙ fill-ring k (suc i) pos (xs ++ (b ∷ [])) ys size
    ∙ append_assoc xs (b ∷ []) (ring k (suc i + pos) ++ ys)
    ∙ ap (λ m. xs ++ (b ∷ (ring k m ++ ys))) (omega arith)

pub next_buf-line : (pos : ℕ) → next_buf pos ≡ line pos
unfolding next_buf set_at
next_buf-line pos =
    let zero_first : 0 + pos ≡ pos = omega arith in
    ap (λ (t : Bytes). set_at 74 10 (set_at 73 13 t)) (fill-ring 72 0 pos [] (0 ∷ 0 ∷ []) refl)
    ∙ ap (λ m. set_at 74 10 (set_at 73 13 (ring 72 m ++ (0 ∷ 0 ∷ [])))) zero_first

ring_mod : (k n m : ℕ) → n % 95 ≡ m % 95 → ring k n ≡ ring k m
ring_mod zero n m h = refl
ring_mod (suc k) n m h =
    rw h (ap (λ t. (32 + m % 95) ∷ t) (ring_mod k (suc n) (suc m) (omega (arith, h))))

pub line_mod : (n m : ℕ) → n % 95 ≡ m % 95 → line n ≡ line m
line_mod n m h = ap (λ (t : Bytes). t ++ (0 ∷ 13 ∷ 10 ∷ [])) (ring_mod 72 n m h)

lines_mod : (k n m : ℕ) → n % 95 ≡ m % 95 → lines k n ≡ lines k m
lines_mod zero n m h = refl
lines_mod (suc k) n m h =
    ap (λ (t : Bytes). t ++ lines k (suc n)) (line_mod n m h)
    ∙ ap (λ (t : Bytes). line m ++ t) (lines_mod k (suc n) (suc m) (omega (arith, h)))

next_lines-sent : (n : ℕ) (g : Generator) → (next_lines n g).sent ≡ g.sent ++ lines n g.pos
unfolding next_lines next_line
next_lines-sent zero g = sym (append-nil g.sent)
next_lines-sent (suc n) g =
    next_lines-sent n (next_line g)
    ∙ append_assoc g.sent (next_buf g.pos) (lines n ((g.pos + 1) % 95))
    ∙ ap (λ (t : Bytes). g.sent ++ (t ++ lines n ((g.pos + 1) % 95))) (next_buf-line g.pos)
    ∙ ap (λ (t : Bytes). g.sent ++ (line g.pos ++ t))
        (lines_mod n ((g.pos + 1) % 95) (suc g.pos) (omega arith))

-- After n shots of the timer a new generator has sent n lines, each of the ring's 95 characters from 32
-- on, starting one character after the line before: 72 characters, and then a zero, CR and LF.
pub next_lines-new : (n : ℕ) → (next_lines n new_generator).sent ≡ lines n 1
unfolding new_generator
next_lines-new n = next_lines-sent n new_generator
