-- ===== src/Connector/Store/Cache.antt =====
-- The cache of the node as a map that forgets.
use pinetd.Prelude.{
  has_key, has_key-find, true, ℕ, zero, suc, ◌≡◌, ◌≤◌, ◌<◌, refl, ap, length, length-take, ◌∙◌,
  if◌then◌else◌, Option, none, some, [], ◌∷◌, Bytes, take, Dict, find, remove, find-remove,
  bytes_eq, bytes_eq_iff, arith,
}
use pinetd.Connector.Store.{cache_insert, use_entry, cache_object}

find-take : (n : ℕ) (k v : Bytes) (m : Dict Bytes) → find k (take n m) ≡ some v → find k m ≡ some v
unfolding find
find-take zero k v m h = absurd (ground arith)
find-take (suc n) k v [] h = h
find-take (suc n) k v ((j, w) ∷ m) h = ground (arith, h, find-take n k v m)

find_moved :
    (k j v : Bytes) (m : Dict Bytes)
    → find j ((k, v) ∷ remove k m) ≡ (if bytes_eq k j then some v else find j m)
unfolding find
find_moved k j v m = ground (arith, find-remove k j m)

-- What is found behind an insertion was put in by it, or was there.
pub find-cache_insert :
    (k j v w : Bytes) (m : Dict Bytes)
    → find j (cache_insert k v m) ≡ some w
    → (if bytes_eq k j then some v else find j m) ≡ some w
unfolding cache_insert
find-cache_insert k j v w m h =
    ground (arith, find_moved k j v m, find-take 100 j w ((k, v) ∷ remove k m) h)

-- A use changes the order only.
find-use_entry :
    (k j : Bytes) (o : Option Bytes) (m : Dict Bytes)
    → find k m ≡ o
    → find j (use_entry k o m).1 ≡ find j m
unfolding use_entry
find-use_entry k j none m e = refl
find-use_entry k j (some v) m e = find_moved k j v m ∙ ground (arith, e, bytes_eq_iff k j)

pub find-cache_object : (k j : Bytes) (m : Dict Bytes) → find j (cache_object k m).1 ≡ find j m
unfolding cache_object
find-cache_object k j m = find-use_entry k j (find k m) m refl

use_entry_found : (k : Bytes) (o : Option Bytes) (m : Dict Bytes) → (use_entry k o m).0 ≡ o
unfolding use_entry
use_entry_found k none m = refl
use_entry_found k (some v) m = refl

pub cache_object-find : (k : Bytes) (m : Dict Bytes) → (cache_object k m).0 ≡ find k m
unfolding cache_object
cache_object-find k m = use_entry_found k (find k m) m

take_whole : (n : ℕ) (m : Dict Bytes) → length m ≤ n → take n m ≡ m
take_whole zero [] h = refl
take_whole zero (e ∷ m) h = absurd (omega arith)
take_whole (suc n) [] h = refl
take_whole (suc n) (e ∷ m) h = ap (λ t. e ∷ t) (take_whole n m (omega arith))

length-remove : (k : Bytes) (m : Dict Bytes) → length (remove k m) ≤ length m
unfolding remove
length-remove k [] = omega arith
length-remove k ((j, w) ∷ m) = ground (arith, length-remove k m)

-- What is found is not counted among the others.
length-remove_found :
    (k v : Bytes) (m : Dict Bytes) → find k m ≡ some v → suc (length (remove k m)) ≤ length m
unfolding remove find
length-remove_found k v [] e = absurd (ground arith)
length-remove_found k v ((j, w) ∷ m) e =
    ground (arith, e, length-remove k m, length-remove_found k v m)

-- A cache with room forgets nothing.
pub cache_insert-find :
    (k j v : Bytes) (m : Dict Bytes)
    → length m < 100
    → find j (cache_insert k v m) ≡ (if bytes_eq k j then some v else find j m)
unfolding cache_insert
cache_insert-find k j v m h =
    ap (find j) (take_whole 100 ((k, v) ∷ remove k m) (omega (arith, h, length-remove k m)))
    ∙ find_moved k j v m

pub length-cache_insert :
    (k v : Bytes) (m : Dict Bytes) → length (cache_insert k v m) ≤ suc (length m)
unfolding cache_insert
length-cache_insert k v m = omega (arith, length-take 100 ((k, v) ∷ remove k m), length-remove k m)

length-use_entry :
    (k : Bytes) (o : Option Bytes) (m : Dict Bytes)
    → find k m ≡ o
    → length (use_entry k o m).1 ≤ length m
unfolding use_entry
length-use_entry k none m e = omega arith
length-use_entry k (some v) m e = omega (arith, length-remove_found k v m e)

pub length-cache_object : (k : Bytes) (m : Dict Bytes) → length (cache_object k m).1 ≤ length m
unfolding cache_object
length-cache_object k m = length-use_entry k (find k m) m refl

pub cache_insert-has_key :
    (k j v : Bytes) (m : Dict Bytes)
    → length m < 100
    → has_key j (cache_insert k v m) ≡ (if bytes_eq k j then true else has_key j m)
cache_insert-has_key k j v m h =
    ground
      (arith, has_key-find j (cache_insert k v m), cache_insert-find k j v m h, has_key-find j m)
