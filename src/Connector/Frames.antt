-- ===== src/Connector/Frames.antt =====
-- A packet at the front of the buffer, by its fields.
use pinetd.Prelude.{
  ℕ, ◌+◌, ◌^◌, ◌<◌, ◌≡◌, refl, sym, ap, ◌∙◌, le→ltb, ◌++◌, Bytes, bytes_eq_refl, length, take, drop,
  slice, length-append, take-append, drop-append, drop-drop, arith,
}
use pinetd.DataStream.{le_bytes, le_value, length-le_bytes, le_value-le_bytes}
use pinetd.Connector.{magic, checked, front}

-- The bytes of a packet with given fields: 12 bytes of name, a length field and a checksum.
abbrev pub fields : Bytes → ℕ → Bytes → Bytes → Bytes
fields name len sum dat = magic ++ (name ++ (le_bytes 4 len ++ (sum ++ dat)))

module _ (name : Bytes) (len : ℕ) (sum dat : Bytes) (n : length name ≡ 12) (l : len < 2 ^ 32)
    (s : length sum ≡ 4) where
  pub slice-name : slice 4 12 (fields name len sum dat) ≡ name
  slice-name = take-append 12 name (le_bytes 4 len ++ (sum ++ dat)) n

  drop-name : drop 12 (name ++ (le_bytes 4 len ++ (sum ++ dat))) ≡ le_bytes 4 len ++ (sum ++ dat)
  drop-name = drop-append 12 name (le_bytes 4 len ++ (sum ++ dat)) n

  slice-length : le_value (slice 16 4 (fields name len sum dat)) ≡ len
  slice-length =
      ap (λ (t : Bytes). le_value (take 4 t)) drop-name
      ∙ ap (λ (t : Bytes). le_value t)
          (take-append 4 (le_bytes 4 len) (sum ++ dat) (length-le_bytes 4 len))
      ∙ le_value-le_bytes 4 len l

  drop-length : drop 16 (name ++ (le_bytes 4 len ++ (sum ++ dat))) ≡ sum ++ dat
  drop-length =
      sym (drop-drop 12 4 (name ++ (le_bytes 4 len ++ (sum ++ dat))))
      ∙ ap (λ (t : Bytes). drop 4 t) drop-name
      ∙ drop-append 4 (le_bytes 4 len) (sum ++ dat) (length-le_bytes 4 len)

  pub slice-sum : slice 20 4 (fields name len sum dat) ≡ sum
  slice-sum = ap (λ (t : Bytes). take 4 t) drop-length ∙ take-append 4 sum dat s

  pub drop-sum : drop 24 (fields name len sum dat) ≡ dat
  drop-sum =
      sym (drop-drop 16 4 (name ++ (le_bytes 4 len ++ (sum ++ dat))))
      ∙ ap (λ (t : Bytes). drop 4 t) drop-length
      ∙ drop-append 4 sum dat s

  pub length-fields : length (fields name len sum dat) ≡ 24 + length dat
  length-fields = omega (
    arith,
    length-append name (le_bytes 4 len ++ (sum ++ dat)),
    length-append (le_bytes 4 len) (sum ++ dat),
    length-append sum dat,
    length-le_bytes 4 len,
    n,
    s,
  )

  -- With the name, the length and the checksum read, the packet is taken if it is there and fits its sum.
  pub front-fields :
      (hash : Bytes → Bytes)
      → front hash (fields name len sum dat) ≡ checked hash len (fields name len sum dat)
  unfolding front
  front-fields hash =
      rw
        (
          le→ltb (length (fields name len sum dat)) 24 (omega (arith, length-fields)),
          bytes_eq_refl magic,
          slice-length,
        )
        refl
