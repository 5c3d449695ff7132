-- ===== src/Prelude/Base64.antt =====
-- `QByteArray::toBase64` and `fromBase64`, the second of which skips every character that is not of the alphabet.
use Prim.Native.Nat.{ℕ, ◌+◌, ◌-◌, ◌*◌, ◌/◌, ◌%◌, ◌^◌, ◌<◌}
use mathlib.Core.Path.{◌≡◌, refl, ap, ◌∙◌}
use mathlib.Core.Option.{Option, none, some}
use mathlib.Core.List.{[], ◌∷◌, ◌++◌}
use native.Mathlib.Omega.{arith}
use pinetd.Prelude.Tests.{ltb, leb, ◌==◌, if◌then◌else◌}
use pinetd.Prelude.Lists.{All}
use pinetd.Prelude.ByteArray.{Bytes, IsByte}

unfoldable char_of : ℕ → ℕ
char_of n =
    if ltb n 26
    then 65 + n
    else if ltb n 52
    then 71 + n
    else if ltb n 62
    then n - 4
    else if n == 62
    then 43
    else 47

unfoldable value_of : ℕ → Option ℕ
value_of c =
    if ltb c 43
    then none
    else if c == 43
    then some 62
    else if c == 47
    then some 63
    else if ltb c 48
    then none
    else if ltb c 58
    then some (c + 4)
    else if ltb c 65
    then none
    else if ltb c 91
    then some (c - 65)
    else if ltb c 97
    then none
    else if ltb c 123
    then some (c - 71)
    else none

unfoldable pub to_base64 : Bytes → Bytes
unfolding char_of
to_base64 [] = []
to_base64 (a ∷ []) = char_of (a / 4) ∷ char_of (a % 4 * 16) ∷ 61 ∷ 61 ∷ []
to_base64 (a ∷ b ∷ []) =
    char_of (a / 4) ∷ char_of (a % 4 * 16 + b / 16) ∷ char_of (b % 16 * 4) ∷ 61 ∷ []
to_base64 (a ∷ b ∷ c ∷ bs) =
    char_of (a / 4)
    ∷ char_of (a % 4 * 16 + b / 16)
    ∷ char_of (b % 16 * 4 + c / 64)
    ∷ char_of (c % 64)
    ∷ to_base64 bs

-- Six bits more behind n bits that are kept: the byte that is complete, if one is, and the bits that are left.
unfoldable push_bits : ℕ → ℕ → ℕ → Bytes × ℕ × ℕ
push_bits buf n d =
    let m = buf * 64 + d in
    if leb 8 (n + 6) then ((m / 2 ^ (n - 2)) ∷ [], m % 2 ^ (n - 2), n - 2) else ([], m, n + 6)

unfoldable from_bits : Bytes → ℕ → ℕ → Bytes
from_bits [] buf n = []
from_bits (c ∷ cs) buf n = elim (value_of c) [
  | none ↦ from_bits cs buf n
  | some d ↦ let (out, buf', n') = push_bits buf n d in out ++ from_bits cs buf' n'
]

unfoldable pub from_base64 : Bytes → Bytes
unfolding from_bits push_bits value_of
from_base64 cs = from_bits cs 0 0

value_of-char_of : (n : ℕ) → n < 64 → value_of (char_of n) ≡ some n
unfolding value_of char_of
value_of-char_of n h = ground arith

from_bits-char_of :
    (x : ℕ) (cs : Bytes) (buf n : ℕ)
    → x < 64
    → from_bits (char_of x ∷ cs) buf n
      ≡ (let (out, buf', n') = push_bits buf n x in out ++ from_bits cs buf' n')
unfolding from_bits
from_bits-char_of x cs buf n h =
    ap
      (λ (o : Option ℕ). elim o as (λ o. Bytes) [
        | none ↦ from_bits cs buf n
        | some d ↦ let (out, buf', n') = push_bits buf n d in out ++ from_bits cs buf' n'
      ])
      (value_of-char_of x h)

-- What four characters spell.
from_bits_four :
    (x y z w : ℕ) (cs : Bytes)
    → x < 64
    → y < 64
    → z < 64
    → w < 64
    → from_bits (char_of x ∷ char_of y ∷ char_of z ∷ char_of w ∷ cs) 0 0
      ≡ (x * 4 + y / 16) ∷ (y % 16 * 16 + z / 4) ∷ (z % 4 * 64 + w) ∷ from_bits cs 0 0
unfolding push_bits
from_bits_four x y z w cs hx hy hz hw =
    from_bits-char_of x (char_of y ∷ char_of z ∷ char_of w ∷ cs) 0 0 hx
    ∙ from_bits-char_of y (char_of z ∷ char_of w ∷ cs) (0 * 64 + x) 6 hy
    ∙ ap (λ (t : Bytes). ((0 * 64 + x) * 64 + y) / 16 ∷ t)
        (from_bits-char_of z (char_of w ∷ cs) (((0 * 64 + x) * 64 + y) % 16) 4 hz
          ∙ ap (λ (t : Bytes). (((0 * 64 + x) * 64 + y) % 16 * 64 + z) / 4 ∷ t)
              (from_bits-char_of w cs ((((0 * 64 + x) * 64 + y) % 16 * 64 + z) % 4) 2 hw))
    ∙ ground arith

-- The end of a text, with one or two characters of padding.
padding : (n buf : ℕ) → from_bits (61 ∷ 61 ∷ []) buf n ≡ []
unfolding value_of from_bits
padding n buf = refl

padding_one : (n buf : ℕ) → from_bits (61 ∷ []) buf n ≡ []
unfolding value_of from_bits
padding_one n buf = refl

padding_none : (n buf : ℕ) → from_bits [] buf n ≡ []
unfolding from_bits
padding_none n buf = refl

from_bits_three :
    (x y z : ℕ)
    → x < 64
    → y < 64
    → z < 64
    → from_bits (char_of x ∷ char_of y ∷ char_of z ∷ 61 ∷ []) 0 0
      ≡ (x * 4 + y / 16) ∷ (y % 16 * 16 + z / 4) ∷ []
unfolding push_bits
from_bits_three x y z hx hy hz =
    from_bits-char_of x (char_of y ∷ char_of z ∷ 61 ∷ []) 0 0 hx
    ∙ from_bits-char_of y (char_of z ∷ 61 ∷ []) (0 * 64 + x) 6 hy
    ∙ ap (λ (t : Bytes). ((0 * 64 + x) * 64 + y) / 16 ∷ t)
        (from_bits-char_of z (61 ∷ []) (((0 * 64 + x) * 64 + y) % 16) 4 hz)
    ∙ ground (arith, padding_one 2 ((((0 * 64 + x) * 64 + y) % 16 * 64 + z) % 4))

from_bits_two :
    (x y : ℕ)
    → x < 64
    → y < 64
    → from_bits (char_of x ∷ char_of y ∷ 61 ∷ 61 ∷ []) 0 0 ≡ (x * 4 + y / 16) ∷ []
unfolding push_bits
from_bits_two x y hx hy =
    from_bits-char_of x (char_of y ∷ 61 ∷ 61 ∷ []) 0 0 hx
    ∙ from_bits-char_of y (61 ∷ 61 ∷ []) (0 * 64 + x) 6 hy
    ∙ ap (λ (t : Bytes). ((0 * 64 + x) * 64 + y) / 16 ∷ t)
        (padding 4 (((0 * 64 + x) * 64 + y) % 16))
    ∙ ground arith

from_bits-to_base64 : (bs : Bytes) → All IsByte bs → from_bits (to_base64 bs) 0 0 ≡ bs
unfolding to_base64
from_bits-to_base64 [] h = padding_none 0 0
from_bits-to_base64 (a ∷ []) h =
    from_bits_two (a / 4) (a % 4 * 16) (omega (arith, h.0)) (omega arith) ∙ ground (arith, h.0)
from_bits-to_base64 (a ∷ b ∷ []) h =
    from_bits_three (a / 4) (a % 4 * 16 + b / 16) (b % 16 * 4) (omega (arith, h.0))
      (omega (arith, h.1.0)) (omega arith)
    ∙ ground (arith, h.0, h.1.0)
from_bits-to_base64 (a ∷ b ∷ c ∷ bs) h =
    from_bits_four (a / 4) (a % 4 * 16 + b / 16) (b % 16 * 4 + c / 64) (c % 64) (to_base64 bs)
      (omega (arith, h.0)) (omega (arith, h.1.0)) (omega (arith, h.1.1.0)) (omega arith)
    ∙ ground (arith, h.0, h.1.0, h.1.1.0, from_bits-to_base64 bs h.1.1.1)

pub from_base64-to_base64 : (bs : Bytes) → All IsByte bs → from_base64 (to_base64 bs) ≡ bs
unfolding from_base64
from_base64-to_base64 bs h = from_bits-to_base64 bs h
