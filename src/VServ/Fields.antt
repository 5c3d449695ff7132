-- ===== src/VServ/Fields.antt =====
-- The text of a device gives its type and its fields.
use pinetd.Prelude.{
  ℕ, ◌≡◌, ◌≢◌, refl, ap, ◌∙◌, ◌==◌, ==_iff, Bool-cases, inl, inr, Option, some, List, [], ◌∷◌, ◌++◌,
  Bytes, split, All, Dict, put, arith, map,
}
use pinetd.VServ.{put_all, cut_at_equals, put_field, read_fields, read_parts, read_device}

-- A text without a character.
abbrev pub Without : ℕ → Bytes → Type 0
Without c bs = All (λ b. b ≢ c) bs

split-last : (c : ℕ) (xs : Bytes) → Without c xs → split c xs ≡ xs ∷ []
unfolding split
split-last c [] h = refl
split-last c (x ∷ xs) h = rw (split-last c xs h.1) (ground (arith, h.0))

split_cons :
    (c : ℕ) (ys : Bytes) → (part : Bytes) × (parts : List Bytes) × (split c ys ≡ part ∷ parts)
unfolding split
split_cons c [] = ([], [], refl)
split_cons c (y ∷ ys) =
    let (part, parts, e) = split_cons c ys in
    elim (Bool-cases (y == c)) [
      | inl f ↦ ([], part ∷ parts, rw (e, f) refl)
      | inr f ↦ (y ∷ part, parts, rw (e, f) refl)
    ]

split-front : (c : ℕ) (xs ys : Bytes) → Without c xs → split c (xs ++ (c ∷ ys)) ≡ xs ∷ split c ys
unfolding split
split-front c [] ys h = let (part, parts, e) = split_cons c ys in rw (e, (==_iff c c).1 refl) refl
split-front c (x ∷ xs) ys h = rw (split-front c xs ys h.1) (ground (arith, h.0))

cut_at_equals-append : (k v : Bytes) → Without 61 k → cut_at_equals (k ++ (61 ∷ v)) ≡ some (k, v)
unfolding cut_at_equals
cut_at_equals-append [] v h = refl
cut_at_equals-append (b ∷ k) v h = rw (cut_at_equals-append k v h.1) (ground (arith, h.0))

-- A key and a value that the text can hold.
pub record IsField (f : Bytes × Bytes) : Type 0 where
  pub key_bar : Without 124 f.0
  pub key_equals : Without 61 f.0
  pub value_bar : Without 124 f.1

abbrev pub field_text : Bytes × Bytes → Bytes
field_text (k, v) = k ++ (61 ∷ v)

abbrev pub device_text : Bytes → List (Bytes × Bytes) → Bytes
device_text type [] = type
device_text type (f ∷ fs) = type ++ (124 ∷ device_text (field_text f) fs)

Without-append : (c : ℕ) (xs ys : Bytes) → Without c xs → Without c ys → Without c (xs ++ ys)
Without-append c [] ys h k = k
Without-append c (x ∷ xs) ys h k = (h.0, Without-append c xs ys h.1 k)

field_text-Without : (f : Bytes × Bytes) → IsField f → Without 124 (field_text f)
field_text-Without f h =
    Without-append 124 f.0 (61 ∷ f.1) h.key_bar ((λ p. ground (arith, p)), h.value_bar)

split-device_text :
    (type : Bytes) (fs : List (Bytes × Bytes))
    → Without 124 type
    → All IsField fs
    → split 124 (device_text type fs) ≡ type ∷ map field_text fs
split-device_text type [] h a = split-last 124 type h
split-device_text type (f ∷ fs) h a =
    split-front 124 type (device_text (field_text f) fs) h
    ∙ ap (λ (t : List Bytes). type ∷ t)
        (split-device_text (field_text f) fs (field_text-Without f a.0) a.1)

read_fields-field_text :
    (fs : List (Bytes × Bytes)) (info : Dict Bytes)
    → All IsField fs
    → read_fields (map field_text fs) info ≡ put_all fs info
unfolding read_fields put_field put_all
read_fields-field_text [] info a = refl
read_fields-field_text (f ∷ fs) info a =
    ap (λ (o : Option (Bytes × Bytes)). read_fields (map field_text fs) (put_field o info))
      (cut_at_equals-append f.0 f.1 (a.0.key_equals))
    ∙ read_fields-field_text fs (put f.0 f.1 info) a.1

-- A device that is spelled as its type and its fields, joined by bars, is read as that type with these fields, a
-- later field in place of an earlier one of its key. The type and the values have no bar, the keys no bar and no "=".
pub read_device-device_text :
    (type : Bytes) (fs : List (Bytes × Bytes))
    → Without 124 type
    → All IsField fs
    → read_device (device_text type fs) ≡ (type, put_all fs [])
unfolding read_device read_parts
read_device-device_text type fs h a =
    ap (λ (t : List Bytes). read_parts t) (split-device_text type fs h a)
    ∙ ap (λ (m : Dict Bytes). (type, m)) (read_fields-field_text fs [] a)
