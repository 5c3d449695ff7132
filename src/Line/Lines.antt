-- ===== src/Line/Lines.antt =====
-- ClientTcpLine: which lines are handled, however the bytes arrive.
use pinetd.Prelude.{
  ℕ, zero, suc, ◌+◌, ◌≤◌, ◌<◌, ◌≡◌, ◌≢◌, refl, sym, ap, ◌∙◌, lt→ltb, le→ltb, List, [], ◌∷◌, ◌++◌,
  true, none, some, Bytes, length, drop, All, append_assoc, append-nil, length-append, take-append,
  drop-append, drop-drop, map, arith,
}
use pinetd.Line.{
  index_of_newline, trimmed, ClientTcpLine, line_limit, too_long, take_line, handle_lines,
  handle_buffer,
}

-- Text without a line feed, within the limit.
abbrev pub IsLine : Bytes → Type 0
IsLine l = All (λ b. b ≢ 10) l × (length l ≤ line_limit)

-- Lines, each with its line feed.
abbrev pub joined : List Bytes → Bytes
joined [] = []
joined (l ∷ ls) = l ++ (10 ∷ joined ls)

index_of_newline-line :
    (l rest : Bytes) → All (λ b. b ≢ 10) l → index_of_newline (l ++ (10 ∷ rest)) ≡ some (length l)
unfolding index_of_newline
index_of_newline-line [] rest h = refl
index_of_newline-line (b ∷ bs) rest h = ground (arith, h.0, index_of_newline-line bs rest h.1)

index_of_newline-none : (l : Bytes) → All (λ b. b ≢ 10) l → index_of_newline l ≡ none
unfolding index_of_newline
index_of_newline-none [] h = refl
index_of_newline-none (b ∷ bs) h = ground (arith, h.0, index_of_newline-none bs h.1)

drop_line : (l rest : Bytes) → drop (length l + 1) (l ++ (10 ∷ rest)) ≡ rest
drop_line l rest =
    sym (drop-drop (length l) 1 (l ++ (10 ∷ rest)))
    ∙ ap (λ (t : Bytes). drop 1 t) (drop-append (length l) l (10 ∷ rest) refl)

-- One round handles the line at the front.
handle_lines_step :
    (fuel : ℕ) (l rest : Bytes) (c : ClientTcpLine)
    → IsLine l
    → handle_lines (suc fuel) (record c { read_buffer = l ++ (10 ∷ rest) })
      ≡ handle_lines fuel (record c { read_buffer = rest; lines = c.lines ++ (trimmed l ∷ []) })
unfolding handle_lines take_line
handle_lines_step fuel l rest c (h, n) = rw (
  index_of_newline-line l rest h,
  le→ltb line_limit (length l) n,
  drop_line l rest,
  take-append (length l) l (10 ∷ rest) refl,
)

-- A line that has not ended stays in the buffer.
handle_lines_end :
    (fuel : ℕ) (rest : Bytes) (c : ClientTcpLine)
    → IsLine rest
    → handle_lines fuel (record c { read_buffer = rest }) ≡ record c { read_buffer = rest }
unfolding handle_lines
handle_lines_end zero rest c (h, n) = refl
handle_lines_end (suc fuel) rest c (h, n) =
    rw (index_of_newline-none rest h, le→ltb line_limit (length rest) n)

-- What follows a line that is too long: nothing yet, or its line feed and more.
abbrev pub IsEnd : Bytes → Type 0
IsEnd [] = Unit {0}
IsEnd (b ∷ bs) = b ≡ 10

handle_lines_overlong :
    (fuel : ℕ) (l tail : Bytes) (c : ClientTcpLine)
    → All (λ b. b ≢ 10) l
    → line_limit < length l
    → IsEnd tail
    → handle_lines (suc fuel) (record c { read_buffer = l ++ tail })
      ≡ record c { read_buffer = []; closed = true }
unfolding handle_lines too_long
handle_lines_overlong fuel l [] c h n e =
    rw (append-nil l, index_of_newline-none l h, lt→ltb line_limit (length l) n)
handle_lines_overlong fuel l (b ∷ bs) c h n e =
    rw (e, index_of_newline-line l bs h, lt→ltb line_limit (length l) n)

-- Complete lines at the front are handled in order. `fuel'` is what is left of the fuel.
handle_lines-joined :
    (ls : List Bytes) (fuel : ℕ) (rest : Bytes) (c : ClientTcpLine)
    → All IsLine ls
    → length (joined ls ++ rest) ≤ fuel
    → (fuel' : ℕ) × (handle_lines (suc fuel) (record c { read_buffer = joined ls ++ rest })
        ≡ handle_lines
            (suc fuel')
            (record c { read_buffer = rest; lines = c.lines ++ map trimmed ls }))
handle_lines-joined [] fuel rest c h f = (
  fuel,
  ap (λ (t : List Bytes). handle_lines (suc fuel) (record c { read_buffer = rest; lines = t }))
      (sym (append-nil c.lines)),
)
handle_lines-joined (l ∷ ls) zero rest c h f =
    absurd
      (omega (arith, length-append (l ++ (10 ∷ joined ls)) rest, length-append l (10 ∷ joined ls)))
handle_lines-joined (l ∷ ls) (suc fuel) rest c h f =
    let shape : (l ++ (10 ∷ joined ls)) ++ rest ≡ l ++ (10 ∷ (joined ls ++ rest)) =
      append_assoc l (10 ∷ joined ls) rest in
    let shorter : length (joined ls ++ rest) ≤ fuel =
      omega
        (arith, ap (λ (t : Bytes). length t) shape, length-append l (10 ∷ (joined ls ++ rest))) in
    let (fuel', later) =
      handle_lines-joined ls fuel rest (record c { lines = c.lines ++ (trimmed l ∷ []) }) h.1
        shorter in
    (
      fuel',
      rw shape (handle_lines_step (suc fuel) l (joined ls ++ rest) c h.0)
          ∙ later
          ∙ ap
              (λ (t : List Bytes).
                handle_lines (suc fuel') (record c { read_buffer = rest; lines = t }))
              (append_assoc c.lines (trimmed l ∷ []) (map trimmed ls)),
    )

-- However the bytes arrive: if what was kept and what comes in are complete lines of 4096 bytes at
-- most and an unfinished one, each complete line is handled once, trimmed, in order, and the
-- unfinished one is kept.
pub handle_buffer-joined :
    (ls : List Bytes) (rest buf : Bytes) (c : ClientTcpLine)
    → c.read_buffer ++ buf ≡ joined ls ++ rest
    → All IsLine ls
    → IsLine rest
    → handle_buffer buf c ≡ record c { read_buffer = rest; lines = c.lines ++ map trimmed ls }
unfolding handle_buffer
handle_buffer-joined ls rest buf c e h r =
    let (fuel', run) = handle_lines-joined ls (length (joined ls ++ rest)) rest c h (omega arith) in
    rw e
      (run ∙ handle_lines_end (suc fuel') rest (record c { lines = c.lines ++ map trimmed ls }) r)

-- A line of more than 4096 bytes, whether or not its line feed has come, closes the connection: the
-- lines before it are handled, and it and everything behind it are dropped.
pub handle_buffer-overlong :
    (ls : List Bytes) (l tail buf : Bytes) (c : ClientTcpLine)
    → c.read_buffer ++ buf ≡ joined ls ++ (l ++ tail)
    → All IsLine ls
    → All (λ b. b ≢ 10) l
    → line_limit < length l
    → IsEnd tail
    → handle_buffer buf c
      ≡ record { read_buffer = []; lines = c.lines ++ map trimmed ls; closed = true }
unfolding handle_buffer
handle_buffer-overlong ls l tail buf c e h n len end =
    let (fuel', run) =
      handle_lines-joined ls (length (joined ls ++ (l ++ tail))) (l ++ tail) c h (omega arith) in
    rw e (
      run
      ∙ handle_lines_overlong fuel' l tail (record c { lines = c.lines ++ map trimmed ls }) n len
          end)
