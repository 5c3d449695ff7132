-- ===== src/Prelude/Decimal.antt =====
-- Numbers are told apart by their digits.
use Prim.Native.Nat.{ℕ, zero, suc, ◌+◌, ◌-◌, ◌*◌, ◌/◌, ◌%◌, ◌<◌}
use mathlib.Core.Path.{◌≡◌, refl, sym, ap, ◌∙◌}
use mathlib.Core.Logic.{inl, inr}
use mathlib.Core.List.{[], ◌∷◌, ◌++◌}
use native.Mathlib.Omega.{arith}
use pinetd.Prelude.Tests.{ltb, ◌==◌, ==_iff, Bool-cases}
use pinetd.Prelude.ByteArray.{Bytes, number, bytes_eq, bytes_eq_iff, ne-bytes_eq}

-- `QByteArray::number(n)`
unfoldable pub decimal : ℕ → Bytes
unfolding number
decimal n = number (suc n) n

value_from : ℕ → Bytes → ℕ
value_from acc [] = acc
value_from acc (b ∷ bs) = value_from (acc * 10 + (b - 48)) bs

value_from-snoc :
    (acc : ℕ) (xs : Bytes) (d : ℕ)
    → value_from acc (xs ++ (d ∷ [])) ≡ value_from acc xs * 10 + (d - 48)
unfolding value_from
value_from-snoc acc [] d = refl
value_from-snoc acc (x ∷ xs) d = value_from-snoc (acc * 10 + (x - 48)) xs d

value_from-number : (fuel n : ℕ) → n < fuel → value_from 0 (number fuel n) ≡ n
unfolding number value_from
value_from-number zero n h = absurd (omega (arith, h))
value_from-number (suc fuel) n h = elim (Bool-cases (ltb n 10)) [
  | inl e ↦ rw e (omega arith)
  | inr e ↦ rw e (
      value_from-snoc 0 (number fuel (n / 10)) (48 + n % 10)
      ∙ ground (arith, e, h, value_from-number fuel (n / 10)))
]

value_from-decimal : (n : ℕ) → value_from 0 (decimal n) ≡ n
unfolding decimal
value_from-decimal n = value_from-number (suc n) n (omega arith)

decimal_inj : (m n : ℕ) → decimal m ≡ decimal n → m ≡ n
decimal_inj m n p = sym (value_from-decimal m) ∙ ap (value_from 0) p ∙ value_from-decimal n

pub decimal_eq : (m n : ℕ) → bytes_eq (decimal m) (decimal n) ≡ (m == n)
decimal_eq m n = elim (Bool-cases (m == n)) [
  | inl q ↦ (bytes_eq_iff (decimal m) (decimal n)).1 (ap decimal ((==_iff m n).0 q)) ∙ sym q
  | inr q ↦
      ne-bytes_eq (decimal m) (decimal n)
        (λ p. ground (arith, q, (==_iff m n).1 (decimal_inj m n p)))
      ∙ sym q
]
