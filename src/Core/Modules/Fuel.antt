-- ===== src/Core/Modules/Fuel.antt =====
-- `modprobe`: the fuel, and the modules that are not loaded.
use pinetd.Prelude.{
  ℕ, zero, suc, ◌+◌, ◌*◌, ◌≤◌, ◌<◌, ◌≡◌, if◌then◌else◌, List, [], ◌∷◌, true, false, some, Bytes,
  bytes_eq, length, Dict, find, has, Bool-cases, inl, inr, arith,
}

-- The entries of the symbol table whose module is not loaded.
abbrev pub unloaded : Dict Bytes → List Bytes → ℕ
unloaded [] ms = 0
unloaded ((s, m) ∷ syms) ms = (if has m ms then 0 else 1) + unloaded syms ms

abbrev pub Keeps : List Bytes → List Bytes → Type 0
Keeps ms ms' = (x : Bytes) → has x ms ≡ true → has x ms' ≡ true

-- Fuel for a module: a provider of lower rank or a reload with fewer modules missing is less.
abbrev pub enough : Dict Bytes → (Bytes → ℕ) → Bytes → List Bytes → ℕ
enough syms rank name ms = suc (rank name * suc (length syms) + unloaded syms ms)

pub unloaded_bound : (syms : Dict Bytes) (ms : List Bytes) → unloaded syms ms ≤ length syms
unloaded_bound [] ms = omega arith
unloaded_bound ((s, m) ∷ syms) ms = ground (arith, unloaded_bound syms ms)

pub unloaded-Keeps :
    (syms : Dict Bytes) (ms ms' : List Bytes) → Keeps ms ms' → unloaded syms ms' ≤ unloaded syms ms
unloaded-Keeps [] ms ms' k = omega arith
unloaded-Keeps ((s, m) ∷ syms) ms ms' k = ground (arith, k m, unloaded-Keeps syms ms ms' k)

-- Loading the provider of a symbol leaves fewer entries unloaded.
pub unloaded_less :
    (syms : Dict Bytes) (s m : Bytes) (ms ms' : List Bytes)
    → find s syms ≡ some m
    → has m ms ≡ false
    → has m ms' ≡ true
    → Keeps ms ms'
    → unloaded syms ms' < unloaded syms ms
unfolding find
unloaded_less [] s m ms ms' e old new k = absurd (ground arith)
unloaded_less ((j, m') ∷ syms) s m ms ms' e old new k = elim (Bool-cases (bytes_eq j s)) [
  | inl q ↦
      let w : m' ≡ m = grind (arith, q, e) in
      rw w (rw (old, new) (omega (arith, unloaded-Keeps syms ms ms' k)))
  | inr q ↦
      let w : find s syms ≡ some m = grind (arith, q, e) in
      ground (arith, k m', unloaded_less syms s m ms ms' w old new k)
]

mul_less : (a b s : ℕ) → a < b → a * s + s ≤ b * s
mul_less a zero s h = absurd (omega arith)
mul_less zero (suc b) s h = omega arith
mul_less (suc a) (suc b) s h = omega (arith, mul_less a b s (omega arith))

-- With the provider loaded there is fuel for another try.
pub less_fuel :
    (syms : Dict Bytes) (rank : Bytes → ℕ) (fuel : ℕ) (name m : Bytes) (ms : List Bytes)
    → enough syms rank name ms ≤ suc fuel
    → rank m < rank name
    → enough syms rank m ms ≤ fuel
less_fuel syms rank fuel name m ms f r =
    omega (arith, mul_less (rank m) (rank name) (suc (length syms)) r)

-- The same of a module that is preloaded, whatever has been loaded before it.
pub preload_fuel :
    (syms : Dict Bytes) (rank : Bytes → ℕ) (fuel : ℕ) (name m : Bytes) (ms ms' : List Bytes)
    → enough syms rank name ms ≤ suc fuel
    → rank m < rank name
    → enough syms rank m ms' ≤ fuel
preload_fuel syms rank fuel name m ms ms' f r =
    omega (arith, mul_less (rank m) (rank name) (suc (length syms)) r, unloaded_bound syms ms')
