-- ===== src/RConnect/Frames.antt =====
-- The frames of RConnect as the format describes them, and `handleBuffer`'s reading of their header.
use pinetd.Prelude.{
  ℕ, ◌+◌, ◌-◌, ◌*◌, ◌/◌, ◌%◌, ◌^◌, ◌≤◌, ◌<◌, ◌≡◌, refl, ap, ◌∙◌, ltb, lt→ltb, le→ltb, ltb→lt,
  if◌then◌else◌, ◌++◌, some, Bytes, length, append_assoc, length-append, take-append, drop-append,
  Bool-cases, inl, inr, arith,
}
use pinetd.DataStream.{be_bytes, length-be_bytes, be_value-be_bytes}
use pinetd.RConnect.{length_at, header, complete, frame_length}

pub record Frame : Type 0 where
  pub target : Bytes
  pub payload : Bytes

-- A length below 2^15 in two bytes, another below 2^31 in four with the top bit set.
abbrev pub encode_length : ℕ → Bytes
encode_length n =
    if ltb n 0x8000
    then be_bytes 2 n
    else be_bytes 2 (0x8000 + n / 2 ^ 16) ++ be_bytes 2 (n % 2 ^ 16)

abbrev pub encode : Frame → Bytes
encode f = f.target ++ (encode_length (length f.payload) ++ f.payload)

pub record IsFrame (f : Frame) : Type 0 where
  pub target : length f.target ≡ 16
  pub payload : length f.payload < 2 ^ 31

-- Two bytes behind a piece of the front.
length_at-append :
    (i v : ℕ) (front rest : Bytes)
    → length front ≡ i
    → v < 2 ^ 16
    → length_at i (front ++ (be_bytes 2 v ++ rest)) ≡ v
unfolding length_at
length_at-append i v front rest e h =
    rw
      (
        drop-append i front (be_bytes 2 v ++ rest) e,
        take-append 2 (be_bytes 2 v) rest (length-be_bytes 2 v),
      )
      (be_value-be_bytes 2 v h)

header_short :
    (target payload rest : Bytes)
    → length target ≡ 16
    → length payload < 0x8000
    → header (target ++ (be_bytes 2 (length payload) ++ rest)) ≡ some (18, length payload)
unfolding header
header_short target payload rest t d =
    let size : 18 ≤ length (target ++ (be_bytes 2 (length payload) ++ rest)) = omega (
      arith,
      length-append target (be_bytes 2 (length payload) ++ rest),
      length-append (be_bytes 2 (length payload)) rest,
      length-be_bytes 2 (length payload),
    ) in
    rw
      (
        le→ltb _ 18 size,
        length_at-append 16 (length payload) target rest t (omega arith),
        lt→ltb (length payload) 0x8000 d,
      )
      refl

header_long :
    (target payload rest : Bytes)
    → length target ≡ 16
    → 0x8000 ≤ length payload
    → length payload < 2 ^ 31
    → header (
        target
        ++ ((be_bytes 2 (0x8000 + length payload / 2 ^ 16) ++ be_bytes 2 (length payload % 2 ^ 16))
            ++ rest))
      ≡ some (20, length payload)
unfolding header
header_long target payload rest t low d =
    let n = length payload in
    let hi = be_bytes 2 (0x8000 + n / 2 ^ 16) in
    let lo = be_bytes 2 (n % 2 ^ 16) in
    let front : length_at 16 (target ++ (hi ++ (lo ++ rest))) ≡ 0x8000 + n / 2 ^ 16 =
      length_at-append 16 (0x8000 + n / 2 ^ 16) target (lo ++ rest) t (omega arith) in
    let behind : length (target ++ hi) ≡ 18 =
      omega (arith, length-append target hi, length-be_bytes 2 (0x8000 + n / 2 ^ 16)) in
    let back : length_at 18 (target ++ (hi ++ (lo ++ rest))) ≡ n % 2 ^ 16 =
      rw (← append_assoc target hi (lo ++ rest))
        (length_at-append 18 (n % 2 ^ 16) (target ++ hi) rest behind (omega arith)) in
    let size : 20 ≤ length (target ++ (hi ++ (lo ++ rest))) = omega (
      arith,
      ap (λ (x : Bytes). length x) (append_assoc target hi (lo ++ rest)),
      length-append (target ++ hi) (lo ++ rest),
      length-append lo rest,
      length-be_bytes 2 (n % 2 ^ 16),
    ) in
    let size' : 18 ≤ length (target ++ (hi ++ (lo ++ rest))) = omega (arith, size) in
    let whole : 0x8000 + n / 2 ^ 16 - 0x8000 ≡ n / 2 ^ 16 = omega arith in
    let sum : n / 2 ^ 16 * 2 ^ 16 + n % 2 ^ 16 ≡ n = omega arith in
    rw
      (
        append_assoc hi lo rest,
        le→ltb _ 18 size',
        front,
        le→ltb (0x8000 + n / 2 ^ 16) 0x8000 (omega arith),
        le→ltb _ 20 size,
        back,
        whole,
        sum,
      )
      refl

encode_shape :
    (f : Frame) (rest : Bytes)
    → encode f ++ rest ≡ f.target ++ (encode_length (length f.payload) ++ (f.payload ++ rest))
encode_shape f rest =
    append_assoc f.target _ rest
    ∙ ap (λ t. f.target ++ t) (append_assoc (encode_length (length f.payload)) f.payload rest)

-- The header of a frame gives the length of its length field, with the 16 bytes before it, and that
-- of its payload.
header-encode :
    (f : Frame) (rest : Bytes)
    → IsFrame f
    → header (encode f ++ rest)
      ≡ some (16 + length (encode_length (length f.payload)), length f.payload)
header-encode f rest h =
    rw (encode_shape f rest) (elim (Bool-cases (ltb (length f.payload) 0x8000)) [
      | inl e ↦
          rw (e, length-be_bytes 2 (length f.payload))
            (header_short f.target f.payload (f.payload ++ rest) h.target (ltb→lt _ _ e))
      | inr e ↦
          rw
            (
              e,
              length-append (be_bytes 2 (0x8000 + length f.payload / 2 ^ 16))
                  (be_bytes 2 (length f.payload % 2 ^ 16)),
              length-be_bytes 2 (0x8000 + length f.payload / 2 ^ 16),
              length-be_bytes 2 (length f.payload % 2 ^ 16),
            )
            (header_long f.target f.payload (f.payload ++ rest) h.target (ground (arith, e))
              h.payload)
    ])

length-encode :
    (f : Frame)
    → IsFrame f
    → length (encode f) ≡ length f.payload + (16 + length (encode_length (length f.payload)))
length-encode f h = omega (
  arith,
  length-append f.target (encode_length (length f.payload) ++ f.payload),
  length-append (encode_length (length f.payload)) f.payload,
  h.target,
)

-- A frame at the front is found with its length.
pub frame_length-encode :
    (f : Frame) (rest : Bytes)
    → IsFrame f
    → frame_length (encode f ++ rest) ≡ some (length (encode f))
unfolding frame_length complete
frame_length-encode f rest h =
    let n = length f.payload + (16 + length (encode_length (length f.payload))) in
    let size : n ≤ length (encode f ++ rest) =
      omega (arith, length-append (encode f) rest, length-encode f h) in
    rw (header-encode f rest h, le→ltb (length (encode f ++ rest)) n size, length-encode f h) refl
