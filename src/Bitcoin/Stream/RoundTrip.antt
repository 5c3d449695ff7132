-- ===== src/Bitcoin/Stream/RoundTrip.antt =====
-- BitcoinStream: the write calls and the read calls together.
use pinetd.Prelude.{
  ℕ, ◌^◌, ◌<◌, ◌≡◌, inl, inr, refl, ◌++◌, arith, ltb, ltb→lt, length, Bytes, append_assoc,
  Bool-cases,
}
use pinetd.DataStream.{le_bytes, read_le, read_le-le_bytes, read_raw-append}
use pinetd.Bitcoin.Stream.{
  write_int, write_string, int_of_tag, read_int, read_data, read_string, as_length,
}

read_tagged :
    (n tag i : ℕ) (rest : Bytes)
    → tag < 256
    → i < 256 ^ n
    → int_of_tag tag (le_bytes n i ++ rest) ≡ read_le n (le_bytes n i ++ rest)
    → read_int ((le_bytes 1 tag ++ le_bytes n i) ++ rest) ≡ (i, rest)
unfolding read_int
read_tagged n tag i rest ht hi e =
    rw
      (
        append_assoc (le_bytes 1 tag) (le_bytes n i) rest,
        read_le-le_bytes 1 tag (le_bytes n i ++ rest) ht,
        e,
      )
      (read_le-le_bytes n i rest hi)

read_small : (i : ℕ) (rest : Bytes) → i < 253 → read_int (le_bytes 1 i ++ rest) ≡ (i, rest)
unfolding read_int
read_small i rest h =
    rw (read_le-le_bytes 1 i rest (omega arith)) (unfold int_of_tag in ground arith)

-- Every quint64 that `writeInt` appends is read back by `readInt`, whatever follows it.
pub read_int-write_int :
    (i : ℕ) (rest : Bytes) → i < 2 ^ 64 → read_int (write_int i ++ rest) ≡ (i, rest)
unfolding write_int int_of_tag
read_int-write_int i rest h = elim (Bool-cases (ltb i 253)) [
  | inl a ↦ rw a (read_small i rest (ltb→lt _ _ a))
  | inr a ↦ elim (Bool-cases (ltb i 0xffff)) [
    | inl b ↦ rw (a, b) (read_tagged 2 253 i rest (omega arith) (omega (arith, ltb→lt _ _ b)) refl)
    | inr b ↦ elim (Bool-cases (ltb i 0xffffffff)) [
      | inl c ↦
          rw (a, b, c) (read_tagged 4 254 i rest (omega arith) (omega (arith, ltb→lt _ _ c)) refl)
      | inr c ↦ rw (a, b, c) (read_tagged 8 255 i rest (omega arith) (omega arith) refl)
    ]
  ]
]

pub as_length_small : (n : ℕ) → n < 2 ^ 31 → as_length n ≡ n
unfolding as_length
as_length_small n h = ground arith

pub read_data-append :
    (n : ℕ) (xs rest : Bytes) → length xs ≡ n → n < 2 ^ 31 → read_data n (xs ++ rest) ≡ (xs, rest)
unfolding read_data
read_data-append n xs rest e h = rw (as_length_small n h) (read_raw-append n xs rest e)

-- `readString` reads back what `writeString` appended, for a string as long as an `int` can say.
pub read_string-write_string :
    (xs rest : Bytes) → length xs < 2 ^ 31 → read_string (write_string xs ++ rest) ≡ (xs, rest)
unfolding read_string write_string
read_string-write_string xs rest h =
    rw
      (
        append_assoc (write_int (length xs)) xs rest,
        read_int-write_int (length xs) (xs ++ rest) (omega arith),
      )
      (read_data-append (length xs) xs rest refl h)

-- A written number takes at least one byte.
pub write_int_nonempty : (i : ℕ) → 0 < length (write_int i)
unfolding write_int le_bytes
write_int_nonempty i = ground arith
