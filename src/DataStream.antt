-- ===== src/DataStream.antt =====
-- Qt's QDataStream over a byte array, as its documentation describes it: integers of fixed width
-- in a byte order, raw data, and a position that only moves forward. A stream that is written is
-- the bytes that its calls append; a stream that is read is the bytes it has not passed yet.
-- A read past the end takes what is there and gives 0 (status ReadPastEnd, which no code asks for).
use pinetd.Prelude.{
  ℕ, zero, suc, ◌+◌, ◌*◌, ◌/◌, ◌%◌, ◌^◌, ◌<◌, ◌≡◌, refl, ap, ◌∙◌, [], ◌∷◌, ◌++◌, arith, ltb,
  if◌then◌else◌, length, take, drop, length-append, take-append, append-nil, drop-append, Bytes,
  IsByte, All,
}
use mathlib.Core.List.{reverse, reverse-reverse, reverse-cons}
use native.Mathlib.Nat.{pow-suc}

-- `stream << x` in LittleEndian, for an unsigned x of n bytes.
unfoldable pub le_bytes : ℕ → ℕ → Bytes
le_bytes zero v = []
le_bytes (suc n) v = (v % 256) ∷ le_bytes n (v / 256)

unfoldable pub le_value : Bytes → ℕ
le_value [] = 0
le_value (b ∷ bs) = b + 256 * le_value bs

-- The same in BigEndian, QDataStream's default.
unfoldable pub be_bytes : ℕ → ℕ → Bytes
be_bytes n v = reverse (le_bytes n v)

unfoldable pub be_value : Bytes → ℕ
be_value bs = le_value (reverse bs)

abbrev pub Reader : Type 0 → Type 0
Reader A = Bytes → A × Bytes

infixl 5 ◌>>=◌ ◌>>◌
abbrev pub ◌>>=◌ : {A B : Type 0} → Reader A → (A → Reader B) → Reader B
◌>>=◌ m f s = let (a, s') = m s in f a s'

abbrev pub ◌>>◌ : {A B : Type 0} → Reader A → Reader B → Reader B
m >> k = m >>= λ _. k

abbrev pub pure : {A : Type 0} → A → Reader A
pure a s = (a, s)

-- `stream >> x`
unfoldable pub read_le : ℕ → Reader ℕ
read_le n s = (if ltb (length s) n then 0 else le_value (take n s), drop n s)

unfoldable pub read_be : ℕ → Reader ℕ
read_be n s = (if ltb (length s) n then 0 else be_value (take n s), drop n s)

-- `readRawData`
unfoldable pub read_raw : ℕ → Reader Bytes
read_raw n s = (take n s, drop n s)

-- `skipRawData`
unfoldable pub skip_raw : ℕ → Reader (Unit {0})
skip_raw n s = (tt, drop n s)

pub length-le_bytes : (n v : ℕ) → length (le_bytes n v) ≡ n
unfolding le_bytes
length-le_bytes zero v = refl
length-le_bytes (suc n) v = ap suc (length-le_bytes n (v / 256))

pub le_bytes-IsByte : (n v : ℕ) → All IsByte (le_bytes n v)
unfolding le_bytes
le_bytes-IsByte zero v = tt
le_bytes-IsByte (suc n) v = (omega arith, le_bytes-IsByte n (v / 256))

pub le_value-le_bytes : (n v : ℕ) → v < 256 ^ n → le_value (le_bytes n v) ≡ v
unfolding le_value le_bytes
le_value-le_bytes zero v h = omega arith
le_value-le_bytes (suc n) v h =
    omega (arith, le_value-le_bytes n (v / 256) (omega (arith, pow-suc 256 n)))

pub le_value-lt : (bs : Bytes) → All IsByte bs → le_value bs < 256 ^ length bs
unfolding le_value
le_value-lt [] h = omega arith
le_value-lt (b ∷ bs) h = omega (arith, le_value-lt bs h.1, pow-suc 256 (length bs))

pub le_bytes-le_value : (bs : Bytes) → All IsByte bs → le_bytes (length bs) (le_value bs) ≡ bs
unfolding le_value le_bytes
le_bytes-le_value [] h = refl
le_bytes-le_value (b ∷ bs) h = ground (arith, le_bytes-le_value bs h.1)

pub length-reverse : (xs : Bytes) → length (reverse xs) ≡ length xs
length-reverse [] = refl
length-reverse (x ∷ xs) =
    omega
      (arith, ap length (reverse-cons x xs), length-append (reverse xs) (x ∷ []), length-reverse xs)

pub length-be_bytes : (n v : ℕ) → length (be_bytes n v) ≡ n
unfolding be_bytes
length-be_bytes n v = length-reverse (le_bytes n v) ∙ length-le_bytes n v

pub be_value-be_bytes : (n v : ℕ) → v < 256 ^ n → be_value (be_bytes n v) ≡ v
unfolding be_bytes be_value
be_value-be_bytes n v h = rw (reverse-reverse (le_bytes n v)) (le_value-le_bytes n v h)

-- A field that was written is read back, whatever follows it.
pub read_le-le_bytes :
    (n v : ℕ) (rest : Bytes) → v < 256 ^ n → read_le n (le_bytes n v ++ rest) ≡ (v, rest)
unfolding read_le
read_le-le_bytes n v rest h = ground (
  arith,
  length-append (le_bytes n v) rest,
  length-le_bytes n v,
  take-append n (le_bytes n v) rest (length-le_bytes n v),
  drop-append n (le_bytes n v) rest (length-le_bytes n v),
  le_value-le_bytes n v h,
)

pub read_be-be_bytes :
    (n v : ℕ) (rest : Bytes) → v < 256 ^ n → read_be n (be_bytes n v ++ rest) ≡ (v, rest)
unfolding read_be
read_be-be_bytes n v rest h = ground (
  arith,
  length-append (be_bytes n v) rest,
  length-be_bytes n v,
  take-append n (be_bytes n v) rest (length-be_bytes n v),
  drop-append n (be_bytes n v) rest (length-be_bytes n v),
  be_value-be_bytes n v h,
)

pub read_raw-append :
    (n : ℕ) (xs rest : Bytes) → length xs ≡ n → read_raw n (xs ++ rest) ≡ (xs, rest)
unfolding read_raw
read_raw-append n xs rest h = ground (arith, take-append n xs rest h, drop-append n xs rest h)

-- Any n bytes are read as the number that they spell.
pub read_le-append :
    (n : ℕ) (xs rest : Bytes) → length xs ≡ n → read_le n (xs ++ rest) ≡ (le_value xs, rest)
unfolding read_le
read_le-append n xs rest h =
    ground (arith, length-append xs rest, take-append n xs rest h, drop-append n xs rest h)

pub read_be_last : (n v : ℕ) → v < 256 ^ n → read_be n (be_bytes n v) ≡ (v, [])
read_be_last n v h = rw append-nil at (read_be-be_bytes n v [] h)

pub skip_raw-append :
    (n : ℕ) (xs rest : Bytes) → length xs ≡ n → skip_raw n (xs ++ rest) ≡ (tt, rest)
unfolding skip_raw
skip_raw-append n xs rest h = rw (drop-append n xs rest h)
