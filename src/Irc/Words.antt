-- ===== src/Irc/Words.antt =====
-- The loop of `handleLine` on words that blanks part.
use pinetd.Prelude.{
  ℕ, zero, suc, ◌+◌, ◌≤◌, ◌<◌, ◌≡◌, ◌≢◌, refl, sym, ap, ◌∙◌, ◌&&◌, not, List, [], ◌∷◌, ◌++◌, Bool,
  true, false, none, some, Bytes, length, drop, All, append-nil, length-append, take-append,
  drop-append, drop-drop, arith,
}
use pinetd.Irc.{index_of, skip_blanks, cut_word, words, reply_tail, starts_with_colon}

-- A word: not empty, without a blank.
abbrev pub IsWord : Bytes → Type 0
IsWord w = All (λ b. b ≢ 32) w × (0 < length w)

-- One that is not the last parameter, nor the first.
abbrev pub IsMiddle : Bytes → Type 0
IsMiddle w = IsWord w × (starts_with_colon w ≡ false)

index_of-word :
    (w rest : Bytes) → All (λ b. b ≢ 32) w → index_of 32 (w ++ (32 ∷ rest)) ≡ some (length w)
unfolding index_of
index_of-word [] rest h = refl
index_of-word (b ∷ bs) rest h = ground (arith, h.0, index_of-word bs rest h.1)

pub index_of-none : (w : Bytes) → All (λ b. b ≢ 32) w → index_of 32 w ≡ none
unfolding index_of
index_of-none [] h = refl
index_of-none (b ∷ bs) h = ground (arith, h.0, index_of-none bs h.1)

drop_word : (w rest : Bytes) → drop (length w + 1) (w ++ (32 ∷ rest)) ≡ rest
drop_word w rest =
    sym (drop-drop (length w) 1 (w ++ (32 ∷ rest)))
    ∙ ap (λ (t : Bytes). drop 1 t) (drop-append (length w) w (32 ∷ rest) refl)

-- A word and a blank at the front.
words_step :
    (fuel : ℕ) (start : Bool) (w rest : Bytes)
    → IsWord w
    → starts_with_colon w && not start ≡ false
    → words (suc fuel) start (w ++ (32 ∷ rest)) ≡ w ∷ words fuel false (skip_blanks rest)
unfolding words cut_word starts_with_colon
words_step fuel start [] rest (h, n) e = absurd (omega arith)
words_step fuel start (c ∷ cs) rest (h, n) e =
    rw
      (
        e,
        index_of-word (c ∷ cs) rest h,
        drop_word (c ∷ cs) rest,
        take-append (length (c ∷ cs)) (c ∷ cs) (32 ∷ rest) refl,
      )
      refl

-- The parameters behind the first, as `sendReply` writes them: the last after a colon.
abbrev pub tail_text : List Bytes → Bytes → Bytes
tail_text [] last = 58 ∷ last
tail_text (p ∷ ps) last = p ++ (32 ∷ tail_text ps last)

pub reply_tail-text :
    (ps : List Bytes) (last : Bytes) → reply_tail true (ps ++ (last ∷ [])) ≡ 32 ∷ tail_text ps last
unfolding reply_tail
reply_tail-text [] last = refl
reply_tail-text (p ∷ []) last = refl
reply_tail-text (p ∷ q ∷ ps) last = ap (λ t. (32 ∷ p) ++ t) (reply_tail-text (q ∷ ps) last)

skip_blanks-text :
    (ps : List Bytes) (last : Bytes)
    → All IsMiddle ps
    → skip_blanks (tail_text ps last) ≡ tail_text ps last
unfolding skip_blanks
skip_blanks-text [] last h = refl
skip_blanks-text ([] ∷ ps) last (((h, n), e), hs) = absurd (omega arith)
skip_blanks-text ((c ∷ cs) ∷ ps) last (((h, n), e), hs) = ground (arith, h.0)

words-text :
    (ps : List Bytes) (last : Bytes) (fuel : ℕ)
    → All IsMiddle ps
    → length (tail_text ps last) ≤ fuel
    → words fuel false (tail_text ps last) ≡ ps ++ (last ∷ [])
unfolding words
words-text [] last zero h n = absurd (omega arith)
words-text [] last (suc fuel) h n = refl
words-text (p ∷ ps) last zero h n = absurd (omega (arith, length-append p (32 ∷ tail_text ps last)))
words-text (p ∷ ps) last (suc fuel) ((w, e), hs) n =
    words_step fuel false p (tail_text ps last) w (rw e refl)
    ∙ ap (λ t. p ∷ words fuel false t) (skip_blanks-text ps last hs)
    ∙ ap (λ t. p ∷ t)
        (words-text ps last fuel hs (omega (arith, length-append p (32 ∷ tail_text ps last))))

pub first_words :
    (p : Bytes) (ps : List Bytes) (last : Bytes) (fuel : ℕ)
    → IsWord p
    → All IsMiddle ps
    → length (p ++ (32 ∷ tail_text ps last)) ≤ fuel
    → words fuel true (p ++ (32 ∷ tail_text ps last)) ≡ p ∷ (ps ++ (last ∷ []))
first_words p ps last zero w h n = absurd (omega (arith, length-append p (32 ∷ tail_text ps last)))
first_words p ps last (suc fuel) w h n =
    words_step fuel true p (tail_text ps last) w (ground arith)
    ∙ ap (λ t. p ∷ words fuel false t) (skip_blanks-text ps last h)
    ∙ ap (λ t. p ∷ t)
        (words-text ps last fuel h (omega (arith, length-append p (32 ∷ tail_text ps last))))

reply_tail-plain :
    (q : Bytes) (ps : List Bytes) → reply_tail false (q ∷ ps) ≡ 32 ∷ (q ++ reply_tail false ps)
unfolding reply_tail
reply_tail-plain q [] = ap (λ (t : Bytes). 32 ∷ t) (sym (append-nil q))
reply_tail-plain q (r ∷ rs) = refl

skip_blanks-word : (q rest : Bytes) → IsWord q → skip_blanks (q ++ rest) ≡ q ++ rest
unfolding skip_blanks
skip_blanks-word [] rest (h, n) = absurd (omega arith)
skip_blanks-word (c ∷ cs) rest (h, n) = ground (arith, h.0)

last_word :
    (fuel : ℕ) (start : Bool) (w : Bytes)
    → IsWord w
    → starts_with_colon w && not start ≡ false
    → words (suc fuel) start w ≡ w ∷ []
unfolding words cut_word starts_with_colon
last_word fuel start [] (h, n) e = absurd (omega arith)
last_word fuel start (c ∷ cs) (h, n) e = rw (e, index_of-none (c ∷ cs) h) refl

-- Words that a blank parts.
pub words-plain :
    (p : Bytes) (ps : List Bytes) (fuel : ℕ) (start : Bool)
    → IsWord p
    → starts_with_colon p && not start ≡ false
    → All IsMiddle ps
    → length (p ++ reply_tail false ps) ≤ fuel
    → words fuel start (p ++ reply_tail false ps) ≡ p ∷ ps
unfolding reply_tail
words-plain p ps zero start (h, n) e hs l =
    absurd (omega (arith, length-append p (reply_tail false ps)))
words-plain p [] (suc fuel) start w e hs l =
    ap (words (suc fuel) start) (append-nil p) ∙ last_word fuel start p w e
words-plain p (q ∷ ps) (suc fuel) start w e ((v, plain), hs) l =
    let rest = q ++ reply_tail false ps in
    let text : p ++ reply_tail false (q ∷ ps) ≡ p ++ (32 ∷ rest) =
      ap (λ (t : Bytes). p ++ t) (reply_tail-plain q ps) in
    let size : length rest ≤ fuel = omega (arith, ap length text, length-append p (32 ∷ rest)) in
    ap (words (suc fuel) start) text
    ∙ words_step fuel start p rest w e
    ∙ ap (λ (t : Bytes). p ∷ words fuel false t) (skip_blanks-word q (reply_tail false ps) v)
    ∙ ap (λ (t : List Bytes). p ∷ t) (words-plain q ps fuel false v (rw plain refl) hs size)
