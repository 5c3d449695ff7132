-- ===== src/VServ/Devices.antt =====
-- The loop over the devices ends, at the first number without a device.
use pinetd.Prelude.{
  ℕ, zero, suc, ◌+◌, ◌≤◌, ◌<◌, ◌≡◌, refl, sym, ◌∙◌, ◌==◌, some, List, [], ◌∷◌, ◌++◌, true, false,
  Bytes, length, Dict, has_key, remove, find-remove, has_key-find, bytes_eq, arith, Bool-cases, inl,
  inr,
}
use pinetd.Prelude.Decimal.{decimal_eq}
use pinetd.VServ.{
  VServ, setting, read_device, device_args, device_key, device_loop, first_args, last_args,
  cmd_line,
}

length-remove_le : (k : Bytes) (m : Dict Bytes) → length (remove k m) ≤ length m
unfolding remove
length-remove_le k [] = omega arith
length-remove_le k ((j, v) ∷ m) = ground (arith, length-remove_le k m)

length-remove_lt :
    (k : Bytes) (m : Dict Bytes) → has_key k m ≡ true → length (remove k m) < length m
unfolding remove has_key
length-remove_lt k [] h = absurd (ground arith)
length-remove_lt k ((j, v) ∷ m) h = ground (arith, h, length-remove_le k m, length-remove_lt k m)

has_key-remove :
    (k j : Bytes) (m : Dict Bytes) → bytes_eq k j ≡ false → has_key j (remove k m) ≡ has_key j m
has_key-remove k j m e =
    has_key-find j (remove k m) ∙ rw (find-remove k j m, e) (sym (has_key-find j m))

device_key_eq : (i j : ℕ) → bytes_eq (device_key i) (device_key j) ≡ (i == j)
unfolding device_key bytes_eq
device_key_eq i j = decimal_eq i j

-- The devices of the first n numbers are there.
abbrev pub Present : ℕ → Dict Bytes → Type 0
Present zero m = Unit
Present (suc n) m = Present n m × (has_key (device_key n) m ≡ true)

Present-remove :
    (n k : ℕ) (m : Dict Bytes) → n ≤ k → Present n m → Present n (remove (device_key k) m)
Present-remove zero k m l p = tt
Present-remove (suc n) k m l (p, h) = (
  Present-remove n k m (omega (arith, l)) p,
  has_key-remove (device_key k) (device_key n) m (device_key_eq k n ∙ ground (arith, l)) ∙ h,
)

-- As many devices are at most as many settings.
Present-le : (n : ℕ) (m : Dict Bytes) → Present n m → n ≤ length m
Present-le zero m p = omega arith
Present-le (suc n) m (p, h) = omega (
  arith,
  length-remove_lt (device_key n) m h,
  Present-le n (remove (device_key n) m) (Present-remove n n m (omega arith) p),
)

-- The arguments of k devices from number i on.
abbrev pub args_from : ℕ → ℕ → Dict Bytes → List Bytes
args_from zero i m = []
args_from (suc k) i m =
    device_args (read_device (setting (device_key i) m)) ++ args_from k (suc i) m

loop_end :
    (fuel i : ℕ) (m : Dict Bytes)
    → has_key (device_key i) m ≡ false
    → device_loop (suc fuel) i m ≡ some []
unfolding device_loop
loop_end fuel i m e = rw e refl

loop_device :
    (fuel i : ℕ) (m : Dict Bytes) (args : List Bytes)
    → has_key (device_key i) m ≡ true
    → device_loop fuel (suc i) m ≡ some args
    → device_loop (suc fuel) i m
      ≡ some (device_args (read_device (setting (device_key i) m)) ++ args)
unfolding device_loop
loop_device fuel i m args e f = rw (e, f) refl

-- The loop from number i on ends at a number n, k devices further.
pub record Rounds (fuel i : ℕ) (m : Dict Bytes) : Type 0 where
  pub k : ℕ
  pub n : ℕ
  pub sum : n ≡ i + k
  pub present : Present n m
  pub absent : has_key (device_key n) m ≡ false
  pub args : device_loop fuel i m ≡ some (args_from k i m)

device_loop-Rounds :
    (fuel i : ℕ) (m : Dict Bytes) → Present i m → length m < fuel + i → Rounds fuel i m
device_loop-Rounds zero i m p l = absurd (omega (arith, l, Present-le i m p))
device_loop-Rounds (suc fuel) i m p l = elim (Bool-cases (has_key (device_key i) m)) [
  | inl e ↦
      (let rest = device_loop-Rounds fuel (suc i) m (p, e) (omega (arith, l)) in
        record {
          k = suc rest.k;
          n = rest.n;
          sum = omega (arith, rest.sum);
          present = rest.present;
          absent = rest.absent;
          args = loop_device fuel i m (args_from rest.k (suc i) m) e rest.args;
        })
  | inr e ↦ record {
    k = zero;
    n = i;
    sum = omega arith;
    present = p;
    absent = e;
    args = loop_end fuel i m e;
  }
]

-- `cmdLine` ends for every configuration: there is a number n such that the devices below it are configured and
-- it is not, and the arguments are the fixed ones, those of exactly these n devices in order, and the last ones.
pub cmd_line-devices :
    (v : VServ)
    → (n : ℕ) × Present n v.config
      × (has_key (device_key n) v.config ≡ false)
      × (cmd_line v ≡ some (first_args v ++ (args_from n 0 v.config ++ last_args v)))
unfolding cmd_line
cmd_line-devices v =
    let l = device_loop-Rounds (suc (length v.config)) 0 v.config tt (omega arith) in
    let e : l.n ≡ l.k = omega (arith, l.sum) in (l.n, l.present, l.absent, rw (e, l.args) refl)
