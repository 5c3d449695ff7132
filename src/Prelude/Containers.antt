-- ===== src/Prelude/Containers.antt =====
-- QMap and QSet with byte-array or text keys, as association lists and lists. (Qt iterates a QMap in
-- the order of its keys; here the order is that of insertion, and nothing proved depends on it.)
use pinetd.Prelude.Tests.{◌==◌, if◌then◌else◌, Bool-cases}
use pinetd.Prelude.ByteArray.{Bytes, bytes_eq, bytes_eq_iff, bytes_eq_refl}
use Prim.Native.Nat.{ℕ, ◌+◌}
use mathlib.Core.Path.{◌≡◌, refl}
use mathlib.Core.Logic.{inl, inr}
use mathlib.Core.Bool.{Bool, true, false, ◌||◌}
use mathlib.Core.Option.{Option, none, some}
use mathlib.Core.List.{List, [], ◌∷◌}
use native.Mathlib.Omega.{arith}

abbrev pub Dict {ℓ} : Type ℓ → Type ℓ
Dict V = List (Bytes × V)

module _ {ℓ} {V : Type ℓ} where
  -- `value(k)`, with what `contains(k)` answers
  unfoldable pub find : Bytes → Dict V → Option V
  find k [] = none
  find k ((j, v) ∷ m) = if bytes_eq j k then some v else find k m

  -- `contains(k)`
  unfoldable pub has_key : Bytes → Dict V → Bool
  has_key k [] = false
  has_key k ((j, v) ∷ m) = if bytes_eq j k then true else has_key k m

  -- `insert(k, v)`
  unfoldable pub put : Bytes → V → Dict V → Dict V
  put k v [] = (k, v) ∷ []
  put k v ((j, w) ∷ m) = if bytes_eq j k then (j, v) ∷ m else (j, w) ∷ put k v m

  -- `remove(k)`
  unfoldable pub remove : Bytes → Dict V → Dict V
  remove k [] = []
  remove k ((j, w) ∷ m) = let rest = remove k m in if bytes_eq j k then rest else (j, w) ∷ rest

  pub find-put :
      (k j : Bytes) (v : V) (m : Dict V)
      → find j (put k v m) ≡ (if bytes_eq k j then some v else find j m)
  unfolding find put
  find-put k j v [] = refl
  find-put k j v ((i, w) ∷ m) =
      ground (arith, bytes_eq_iff k j, bytes_eq_iff i k, bytes_eq_iff i j, find-put k j v m)

  pub find-remove :
      (k j : Bytes) (m : Dict V) → find j (remove k m) ≡ (if bytes_eq k j then none else find j m)
  unfolding find remove
  find-remove k j [] = ground arith
  find-remove k j ((i, w) ∷ m) =
      ground (arith, bytes_eq_iff k j, bytes_eq_iff i k, bytes_eq_iff i j, find-remove k j m)

  pub has_key-find :
      (k : Bytes) (m : Dict V) → has_key k m ≡ (elim (find k m) [ none ↦ false | some v ↦ true ])
  unfolding has_key find
  has_key-find k [] = refl
  has_key-find k ((j, v) ∷ m) = ground (arith, has_key-find k m)

  pub has_key-none : (k : Bytes) (m : Dict V) → has_key k m ≡ false → find k m ≡ none
  unfolding has_key find
  has_key-none k [] h = refl
  has_key-none k ((j, v) ∷ m) h = ground (arith, h, has_key-none k m)

-- A QSet holds an element once or not at all.
unfoldable pub has : Bytes → List Bytes → Bool
has a [] = false
has a (x ∷ xs) = bytes_eq x a || has a xs

unfoldable pub count : Bytes → List Bytes → ℕ
count a [] = 0
count a (x ∷ xs) = (if bytes_eq x a then 1 else 0) + count a xs

-- `insert(a)`
unfoldable pub add : Bytes → List Bytes → List Bytes
unfolding has
add a xs = if has a xs then xs else a ∷ xs

pub has-add : (a : Bytes) (xs : List Bytes) → has a (add a xs) ≡ true
unfolding add has
has-add a xs = elim (Bool-cases (has a xs)) [
  | inl e ↦ rw e e
  | inr e ↦ rw (e, bytes_eq_refl a) refl
]

-- `remove(a)`, of the one occurrence that there can be
unfoldable pub erase : Bytes → List Bytes → List Bytes
erase a [] = []
erase a (x ∷ xs) = if bytes_eq x a then xs else x ∷ erase a xs

pub has-count : (a : Bytes) (xs : List Bytes) → has a xs ≡ (if count a xs == 0 then false else true)
unfolding has count
has-count a [] = refl
has-count a (x ∷ xs) = ground (arith, has-count a xs)

pub count-add :
    (a c : Bytes) (xs : List Bytes)
    → has a xs ≡ false
    → count c (add a xs) ≡ (if bytes_eq a c then 1 else 0) + count c xs
unfolding add count
count-add a c xs h = rw h

pub count-erase :
    (a c : Bytes) (xs : List Bytes)
    → has a xs ≡ true
    → (if bytes_eq a c then 1 else 0) + count c (erase a xs) ≡ count c xs
unfolding erase count has
count-erase a c [] h = absurd (ground arith)
count-erase a c (x ∷ xs) h =
    ground (arith, bytes_eq_iff x a, bytes_eq_iff x c, bytes_eq_iff a c, count-erase a c xs)
