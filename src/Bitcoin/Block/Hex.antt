-- ===== src/Bitcoin/Block/Hex.antt =====
-- Hashes are told apart by their digits.
use pinetd.Prelude.{ℕ, ◌/◌, ◌%◌, ◌≡◌, refl, ◌==◌, [], ◌∷◌, Bytes, bytes_eq, arith}
use pinetd.Bitcoin.Block.{hex_digit, to_hex}

hex_digit_eq : (m n : ℕ) → (hex_digit m == hex_digit n) ≡ (m == n)
unfolding hex_digit
hex_digit_eq m n = ground arith

pub to_hex_eq : (xs ys : Bytes) → bytes_eq (to_hex xs) (to_hex ys) ≡ bytes_eq xs ys
unfolding bytes_eq to_hex
to_hex_eq [] [] = refl
to_hex_eq [] (y ∷ ys) = refl
to_hex_eq (x ∷ xs) [] = refl
to_hex_eq (x ∷ xs) (y ∷ ys) =
    rw (hex_digit_eq (x / 16) (y / 16), hex_digit_eq (x % 16) (y % 16), to_hex_eq xs ys)
      (ground arith)
