-- ===== src/Core/Modules/Loading.antt =====
-- `modprobe`: that it ends, and what is loaded.
use pinetd.Prelude.{
  ℕ, zero, suc, ◌≤◌, ◌<◌, ◌≡◌, refl, sym, ap, ◌∙◌, if◌then◌else◌, List, [], ◌∷◌, Bool, true, false,
  Option, none, some, Bytes, All, Dict, find, has, has-add, add, Bool-cases, Option-cases, inl, inr,
  arith,
}
use pinetd.Core.Modules.Fuel.{Keeps, enough, unloaded_less, less_fuel, preload_fuel}
use pinetd.Prelude.Fault.{◌>>=◌, Returns, Returns-bind, Returns-mono}
use pinetd.Core.Modules.{
  Loader, is_extension, preload_modules, preload_all, preloaded, after_load, provider,
  unless_loaded, after_error, load_round, load_loop, modprobe,
}

-- What a call of `modprobe` promises.
pub record Loads (name : Bytes) (ms : List Bytes) (r : Bool × List Bytes) : Type 0 where
  pub keeps : Keeps ms r.1
  pub loaded : r.0 ≡ true → has name r.1 ≡ true

-- A module only misses symbols of modules of a lower rank, and preloads only such modules.
pub record IsRanked (l : Loader) (syms : Dict Bytes) (rank : Bytes → ℕ) : Type 0 where
  pub symbols :
      (name : Bytes) (ms : List Bytes) (err m : Bytes)
      → l.load ms (is_extension name) name ≡ some err
      → provider l syms err ≡ some m
      → rank m < rank name
  pub preloads : (name : Bytes) → All (λ m. rank m < rank name) (preload_modules name)

add-Keeps : (name : Bytes) (ms : List Bytes) → Keeps ms (add name ms)
unfolding add has
add-Keeps name ms x h = elim (Bool-cases (has name ms)) [
  | inl e ↦ rw e h
  | inr e ↦ ground (arith, e, h)
]

preloaded-Loads :
    (name : Bytes) (ms : List Bytes) (r : Bool × List Bytes)
    → Keeps ms r.1
    → Loads name ms (preloaded name r)
unfolding preloaded
preloaded-Loads name ms (true, ms') k = record {
  keeps = λ x h. add-Keeps name ms' x (k x h);
  loaded = λ e. has-add name ms';
}
preloaded-Loads name ms (false, ms') k = record { keeps = k; loaded = λ e. absurd (ground arith) }

-- The two calls that a round makes promise the same of themselves.
abbrev IsGood :
    Dict Bytes → (Bytes → ℕ) → ℕ → (Bytes → List Bytes → Option (Bool × List Bytes)) → Type 0
IsGood syms rank fuel probe =
    (name : Bytes) (ms : List Bytes)
    → enough syms rank name ms ≤ fuel
    → Returns (Loads name ms) (probe name ms)

unless_loaded-Loads :
    (probe : Bytes → List Bytes → Option (Bool × List Bytes)) (name : Bytes) (ms : List Bytes)
    → Returns (Loads name ms) (probe name ms)
    → Returns (Loads name ms) (unless_loaded probe name ms)
unfolding unless_loaded
unless_loaded-Loads probe name ms h = elim (Bool-cases (has name ms)) [
  | inl e ↦ rw e (record { keeps = λ x k. k; loaded = λ t. e })
  | inr e ↦ rw e h
]

preload_all-Keeps :
    (syms : Dict Bytes) (rank : Bytes → ℕ) (fuel : ℕ)
    (probe : Bytes → List Bytes → Option (Bool × List Bytes)) (name : Bytes) (ms : List Bytes)
    → IsGood syms rank fuel probe
    → enough syms rank name ms ≤ suc fuel
    → (ps : List Bytes) (ms' : List Bytes) → All (λ m. rank m < rank name) ps
    → Returns (λ r. Keeps ms' r.1) (preload_all probe ps ms')
unfolding preload_all
preload_all-Keeps syms rank fuel probe name ms good f [] ms' a = λ x h. h
preload_all-Keeps syms rank fuel probe name ms good f (m ∷ ps) ms' (a, rest) =
    Returns-bind (Loads m ms') (λ r. Keeps ms' r.1) (unless_loaded probe m ms') _
      (unless_loaded-Loads probe m ms' (good m ms' (preload_fuel syms rank fuel name m ms ms' f a)))
      (next (λ ms''. preload_all-Keeps syms rank fuel probe name ms good f ps ms'' rest))
  where
    next :
        ((ms'' : List Bytes) → Returns (λ r. Keeps ms'' r.1) (preload_all probe ps ms''))
        → (r : Bool × List Bytes) → Loads m ms' r
        → Returns
            (λ r'. Keeps ms' r'.1)
            (if r.0 then preload_all probe ps r.1 else some (false, r.1))
    next go (true, ms'') h =
        Returns-mono (λ r. Keeps ms'' r.1) (λ r. Keeps ms' r.1) (preload_all probe ps ms'')
          (go ms'') (λ r k x w. k x (h.keeps x w))
    next go (false, ms'') h = h.keeps

after_load-Loads :
    (syms : Dict Bytes) (rank : Bytes → ℕ) (fuel : ℕ)
    (probe : Bytes → List Bytes → Option (Bool × List Bytes)) (name : Bytes) (ms : List Bytes)
    → IsGood syms rank fuel probe
    → enough syms rank name ms ≤ suc fuel
    → All (λ m. rank m < rank name) (preload_modules name)
    → Returns (Loads name ms) (after_load probe name ms)
unfolding after_load
after_load-Loads syms rank fuel probe name ms good f a =
    Returns-bind (λ r. Keeps ms r.1) (Loads name ms) (preload_all probe (preload_modules name) ms)
      (λ r. some (preloaded name r))
      (preload_all-Keeps syms rank fuel probe name ms good f (preload_modules name) ms a)
      (λ r k. preloaded-Loads name ms r k)

after_error-Loads :
    (syms : Dict Bytes) (rank : Bytes → ℕ) (fuel : ℕ)
    (probe : Bytes → List Bytes → Option (Bool × List Bytes)) (name s m : Bytes) (ms : List Bytes)
    → IsGood syms rank fuel probe
    → enough syms rank name ms ≤ suc fuel
    → rank m < rank name
    → find s syms ≡ some m
    → Returns (Loads name ms) (after_error probe name ms (some m))
unfolding after_error
after_error-Loads syms rank fuel probe name s m ms good f r e = elim (Bool-cases (has m ms)) [
  | inl there ↦ rw there (record { keeps = λ x k. k; loaded = λ t. absurd (ground arith) })
  | inr old ↦ rw old (
      Returns-bind (Loads m ms) (Loads name ms) (unless_loaded probe m ms) _
        (unless_loaded-Loads probe m ms (good m ms (less_fuel syms rank fuel name m ms f r)))
        (λ r' h. retried old r' h))
]
  where
    retried :
        has m ms ≡ false
        → (r' : Bool × List Bytes) → Loads m ms r'
        → Returns (Loads name ms) (if r'.0 then probe name r'.1 else some (false, r'.1))
    retried old (true, ms') h =
        let less = unloaded_less syms s m ms ms' e old (h.loaded refl) h.keeps in
        Returns-mono (Loads name ms') (Loads name ms) (probe name ms')
          (good name ms' (omega (arith, less)))
          (λ r'' q. record { keeps = λ x w. q.keeps x (h.keeps x w); loaded = q.loaded })
    retried old (false, ms') h = record { keeps = h.keeps; loaded = λ t. absurd (ground arith) }

provider-find :
    (l : Loader) (syms : Dict Bytes) (err m : Bytes)
    → provider l syms err ≡ some m
    → (s : Bytes) × (find s syms ≡ some m)
unfolding provider
provider-find l syms err m e = elim (Option-cases (l.undefined_symbol err)) [
  | inl n ↦ absurd (grind (arith, n, e))
  | inr (s, n) ↦ (s, sym (ap (λ (o : Option Bytes). o >>= (λ t. find t syms)) n) ∙ e)
]

load_loop-Loads :
    (l : Loader) (syms : Dict Bytes) (rank : Bytes → ℕ)
    → IsRanked l syms rank
    → (fuel : ℕ) → IsGood syms rank fuel (load_loop l syms fuel)
unfolding load_loop load_round
load_loop-Loads l syms rank ranked zero name ms f = absurd (omega arith)
load_loop-Loads l syms rank ranked (suc fuel) name ms f =
    elim (Option-cases (l.load ms (is_extension name) name)) [
      | inl ok ↦ rw ok (
          after_load-Loads syms rank fuel (load_loop l syms fuel) name ms
            (load_loop-Loads l syms rank ranked fuel) f (ranked.preloads name))
      | inr (err, bad) ↦ elim (Option-cases (provider l syms err)) [
        | inl unknown ↦
            rw (bad, unknown) (record { keeps = λ x k. k; loaded = λ t. absurd (ground arith) })
        | inr (m, known) ↦
            let (s, e) = provider-find l syms err m known in
            rw (bad, known)
              (after_error-Loads syms rank fuel (load_loop l syms fuel) name s m ms
                (load_loop-Loads l syms rank ranked fuel) f (ranked.symbols name ms err m bad known)
                e)
      ]
    ]

-- If a module only ever misses symbols of modules of a lower rank, and preloads only such modules, `modprobe` ends,
-- with its calls of itself for a symbol and from `pinetd_preload`: with fuel for the rank and the modules that are not loaded, it gives an answer, all that was loaded is still loaded,
-- and if the answer is true the module is loaded.
pub modprobe-Loads :
    (l : Loader) (syms : Dict Bytes) (rank : Bytes → ℕ) (fuel : ℕ) (name : Bytes) (ms : List Bytes)
    → IsRanked l syms rank
    → enough syms rank name ms ≤ fuel
    → Returns (Loads name ms) (modprobe l syms fuel name ms)
unfolding modprobe
modprobe-Loads l syms rank fuel name ms ranked f =
    unless_loaded-Loads (load_loop l syms fuel) name ms
      (load_loop-Loads l syms rank ranked fuel name ms f)

load_loop_cycle :
    (l : Loader) (syms : Dict Bytes) (fuel : ℕ) (name err : Bytes) (ms : List Bytes)
    → has name ms ≡ false
    → l.load ms (is_extension name) name ≡ some err
    → provider l syms err ≡ some name
    → load_loop l syms fuel name ms ≡ none
unfolding load_loop load_round after_error unless_loaded
load_loop_cycle l syms zero name err ms new bad known = refl
load_loop_cycle l syms (suc fuel) name err ms new bad known =
    rw (bad, known, new) (rw (load_loop_cycle l syms fuel name err ms new bad known) refl)

-- If the table says that a module that is not loaded itself defines the symbol that it misses,
-- `modprobe` of the module calls itself without end: no fuel is enough.
pub modprobe_cycle :
    (l : Loader) (syms : Dict Bytes) (fuel : ℕ) (name err : Bytes) (ms : List Bytes)
    → has name ms ≡ false
    → l.load ms (is_extension name) name ≡ some err
    → provider l syms err ≡ some name
    → modprobe l syms fuel name ms ≡ none
unfolding modprobe unless_loaded
modprobe_cycle l syms fuel name err ms new bad known =
    rw new (load_loop_cycle l syms fuel name err ms new bad known)
