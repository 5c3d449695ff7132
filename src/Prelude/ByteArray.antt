-- ===== src/Prelude/ByteArray.antt =====
-- QByteArray and QString values as lists of numbers, with the Boolean test of their `==`.
use Prim.Native.Nat.{ℕ, zero, suc, ◌+◌, ◌/◌, ◌%◌, ◌<◌}
use Prim.Native.Char.{code}
use Prim.Native.String.{String}
use mathlib.Core.Path.{◌≡◌, refl}
use mathlib.Core.Logic.{◌↔◌, ◌≢◌, ◌⊎◌, inl, inr}
use mathlib.Core.Bool.{Bool, true, false, ◌&&◌}
use mathlib.Core.List.{List, [], ◌∷◌, ◌++◌}
use native.Mathlib.Omega.{arith}
use pinetd.Prelude.Tests.{ltb, ◌==◌, if◌then◌else◌, Bool-cases}

abbrev pub Bytes : Type 0
Bytes = List ℕ

abbrev pub codes : String → Bytes
codes String.[] = []
codes (String.◌∷◌ c s) = code c ∷ codes s

abbrev pub IsByte : ℕ → Type 0
IsByte b = b < 256

-- `number(n)`, on fuel for the digits.
unfoldable pub number : ℕ → ℕ → Bytes
number zero n = []
number (suc fuel) n =
    let front = number fuel (n / 10) in
    if ltb n 10 then (48 + n) ∷ [] else front ++ ((48 + n % 10) ∷ [])

-- `split(sep)`: at least one part.
unfoldable pub split : ℕ → Bytes → List Bytes
split sep [] = [] ∷ []
split sep (b ∷ bs) = elim (split sep bs) [
  | [] ↦ [] ∷ []
  | part ∷ parts ↦ if b == sep then [] ∷ part ∷ parts else (b ∷ part) ∷ parts
]

unfoldable pub bytes_eq : Bytes → Bytes → Bool
bytes_eq [] [] = true
bytes_eq [] (y ∷ ys) = false
bytes_eq (x ∷ xs) [] = false
bytes_eq (x ∷ xs) (y ∷ ys) = x == y && bytes_eq xs ys

pub bytes_eq_iff : (xs ys : Bytes) → (bytes_eq xs ys ≡ true) ↔ (xs ≡ ys)
unfolding bytes_eq
bytes_eq_iff [] [] = ground arith
bytes_eq_iff [] (y ∷ ys) = ground arith
bytes_eq_iff (x ∷ xs) [] = ground arith
bytes_eq_iff (x ∷ xs) (y ∷ ys) = ground (arith, bytes_eq_iff xs ys)

pub bytes_eq_refl : (xs : Bytes) → bytes_eq xs xs ≡ true
bytes_eq_refl xs = (bytes_eq_iff xs xs).1 refl

-- Equal or not, with what `==` answers.
pub bytes_cases :
    (xs ys : Bytes) → ((xs ≡ ys) × (bytes_eq xs ys ≡ true)) ⊎ ((xs ≢ ys) × (bytes_eq xs ys ≡ false))
bytes_cases xs ys = elim (Bool-cases (bytes_eq xs ys)) [
  | inl e ↦ inl ((bytes_eq_iff xs ys).0 e, e)
  | inr e ↦ inr (λ p. ground (arith, (bytes_eq_iff xs ys).1 p), e)
]

pub ne-bytes_eq : (xs ys : Bytes) → xs ≢ ys → bytes_eq xs ys ≡ false
ne-bytes_eq xs ys h = elim (bytes_cases xs ys) [ inl (p, e) ↦ absurd (h p) | inr (p, e) ↦ e ]
