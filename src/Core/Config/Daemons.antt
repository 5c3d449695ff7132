-- ===== src/Core/Config/Daemons.antt =====
-- `reloadConfig` on the groups "preload" and "daemons".
use pinetd.Prelude.{
  ℕ, suc, ◌+◌, ◌*◌, ◌≤◌, ◌≡◌, ◌≢◌, refl, sym, ap, ◌∙◌, if◌then◌else◌, List, [], ◌∷◌, Bool, true,
  false, Option, none, some, Bytes, length, bytes_eq, bytes_cases, Dict, find, has_key, find-put,
  has_key-none, has_key-find, Option-cases, Bool-cases, inl, inr, arith,
}
use native.Mathlib.Nat.{mul-le-mul_right}
use mathlib.Core.Option.{some-injective}
use pinetd.Prelude.Fault.{Returns, Returns-bind, Returns-mono, Returns-some}
use pinetd.Core.Modules.{Loader, modprobe}
use pinetd.Core.Modules.Fuel.{unloaded_bound, Keeps}
use pinetd.Core.Modules.Loading.{Loads, IsRanked, modprobe-Loads}
use pinetd.Core.Config.Ports.{IsUnique}
use pinetd.Core.Config.{load_modules, instanciated, load_daemon, load_daemons}

-- Fuel for every module, where no rank is above a bound.
abbrev pub IsFuel : Dict Bytes → ℕ → ℕ → Type 0
IsFuel syms bound fuel = suc (bound * suc (length syms) + length syms) ≤ fuel

modprobe_ends :
    (l : Loader) (syms : Dict Bytes) (rank : Bytes → ℕ) (bound fuel : ℕ) (name : Bytes)
    (ms : List Bytes)
    → IsRanked l syms rank
    → ((n : Bytes) → rank n ≤ bound)
    → IsFuel syms bound fuel
    → Returns (Loads name ms) (modprobe l syms fuel name ms)
modprobe_ends l syms rank bound fuel name ms ranked b f =
    modprobe-Loads l syms rank fuel name ms ranked
      (omega (arith, unloaded_bound syms ms, mul-le-mul_right (suc (length syms)) (b name)))

-- The daemon that `pinetd_instanciate` gives, if it is there and not null.
abbrev pub created : Option (Option ℕ) → Option ℕ
created (some (some d)) = some d
created _ = none

-- A configured daemon that was not running: between the modules loaded at first and those at the end, `modprobe` of
-- its module answered, and with the answer true the table has what `pinetd_instanciate` gave, else nothing.
pub record Begun (l : Loader) (syms : Dict Bytes) (fuel : ℕ) (k name : Bytes) (ms ms' : List Bytes)
    (o : Option ℕ) : Type 0 where
  pub modules : List Bytes
  pub answer : Bool × List Bytes
  pub before : Keeps ms modules
  pub after : Keeps answer.1 ms'
  pub probe : modprobe l syms fuel name modules ≡ some answer
  pub result : o ≡ (if answer.0 then created (l.instanciate name k) else none)

-- What the loop over the daemons promises.
pub record Started (l : Loader) (syms : Dict Bytes) (fuel : ℕ) (cfg : Dict Bytes)
    (t t' : Dict ℕ × List Bytes) : Type 0 where
  pub keeps : Keeps t.1 t'.1
  pub running : (k : Bytes) (d : ℕ) → find k t.0 ≡ some d → find k t'.0 ≡ some d
  pub absent : (k : Bytes) → find k cfg ≡ none → find k t.0 ≡ none → find k t'.0 ≡ none
  pub begun :
      (k name : Bytes)
      → IsUnique cfg
      → find k cfg ≡ some name
      → find k t.0 ≡ none
      → Begun l syms fuel k name t.1 t'.1 (find k t'.0)

none-some : (d : ℕ) → none ≢ some d
none-some d e = ground arith

find-instanciated :
    (k j : Bytes) (o : Option (Option ℕ)) (ds : Dict ℕ)
    → find k ds ≡ none
    → find j (instanciated k o ds) ≡ (if bytes_eq k j then created o else find j ds)
unfolding instanciated
find-instanciated k j none ds e = elim (bytes_cases k j) [
  | inl (p, t) ↦ rw t (ap (λ i. find i ds) (sym p) ∙ e)
  | inr (p, t) ↦ rw t refl
]
find-instanciated k j (some none) ds e = elim (bytes_cases k j) [
  | inl (p, t) ↦ rw t (ap (λ i. find i ds) (sym p) ∙ e)
  | inr (p, t) ↦ rw t refl
]
find-instanciated k j (some (some d)) ds e = find-put k j d ds

-- A Boolean answer that decides whether an entry is there.
find_answered :
    (b : Bool) (k j : Bytes) (o : Option (Option ℕ)) (ds : Dict ℕ)
    → find k ds ≡ none
    → find j (if b then instanciated k o ds else ds)
      ≡ (if bytes_eq k j then (if b then created o else none) else find j ds)
find_answered true k j o ds e = find-instanciated k j o ds e
find_answered false k j o ds e = elim (bytes_cases k j) [
  | inl (p, t) ↦ rw t (ap (λ i. find i ds) (sym p) ∙ e)
  | inr (p, t) ↦ rw t refl
]

module _ (l : Loader) (syms : Dict Bytes) (rank : Bytes → ℕ) (bound fuel : ℕ)
    (ranked : IsRanked l syms rank) (b : (n : Bytes) → rank n ≤ bound)
    (f : IsFuel syms bound fuel) where
  pub load_modules-Keeps :
      (cfg : Dict Bytes) (ms : List Bytes) → Returns (Keeps ms) (load_modules l syms fuel cfg ms)
  unfolding load_modules
  load_modules-Keeps [] ms = λ x h. h
  load_modules-Keeps ((k, name) ∷ cfg) ms =
      Returns-bind (Loads name ms) (Keeps ms) (modprobe l syms fuel name ms) _
        (modprobe_ends l syms rank bound fuel name ms ranked b f)
        (λ r h.
          Returns-mono (Keeps r.1) (Keeps ms) (load_modules l syms fuel cfg r.1)
            (load_modules-Keeps cfg r.1) (λ ms'' h' x w. h' x (h.keeps x w)))

  abbrev Good : Dict Bytes → Dict ℕ × List Bytes → Dict ℕ × List Bytes → Type 0
  Good = Started l syms fuel

  same_Started :
      (k name : Bytes) (t : Dict ℕ × List Bytes) → has_key k t.0 ≡ true → Good ((k, name) ∷ []) t t
  unfolding find
  same_Started k name t h = record {
    keeps = λ x w. w;
    running = λ j d e. e;
    absent = λ j c e. e;
    begun = λ j n u c e. elim (bytes_cases k j) [
      | inl (p, q) ↦ absurd (ground (arith, h, has_key-find k t.0, e, ap (λ i. find i t.0) p))
      | inr (p, q) ↦ absurd (ground (arith, c, q))
    ];
  }

  none_Started : (t : Dict ℕ × List Bytes) → Good [] t t
  unfolding find
  none_Started t = record {
    keeps = λ x w. w;
    running = λ j d e. e;
    absent = λ j c e. e;
    begun = λ j n u c e. absurd (ground (arith, c));
  }

  then_Started :
      (k name : Bytes) (cfg : Dict Bytes) (t t' t'' : Dict ℕ × List Bytes)
      → Good ((k, name) ∷ []) t t'
      → Good cfg t' t''
      → Good ((k, name) ∷ cfg) t t''
  unfolding find
  then_Started k name cfg t t' t'' h h' = record {
    keeps = λ x w. h'.keeps x (h.keeps x w);
    running = λ j d e. h'.running j d (h.running j d e);
    absent = λ j c e. elim (bytes_cases k j) [
      | inl (p, q) ↦ absurd (ground (arith, c, q))
      | inr (p, q) ↦
          let later : find j cfg ≡ none = ground (arith, c, q) in
          h'.absent j later (h.absent j (rw q refl) e)
    ];
    begun = λ j n (u, us) c e. elim (bytes_cases k j) [
      | inl (p, q) ↦
          let b = h.begun j n (refl, tt) (rw q (rw q at c)) e in
          let later : find j cfg ≡ none = ap (λ i. find i cfg) (sym p) ∙ u in
          let same : find j t''.0 ≡ find j t'.0 = elim (Option-cases (find j t'.0)) [
            | inl w ↦ h'.absent j later w ∙ sym w
            | inr (d, w) ↦ h'.running j d w ∙ sym w
          ] in
          record {
            modules = b.modules;
            answer = b.answer;
            before = b.before;
            after = λ x w. h'.keeps x (b.after x w);
            probe = b.probe;
            result = same ∙ b.result;
          }
      | inr (p, q) ↦
          let b = h'.begun j n us (rw q at c) (h.absent j (rw q refl) e) in
          record {
            modules = b.modules;
            answer = b.answer;
            before = λ x w. b.before x (h.keeps x w);
            after = b.after;
            probe = b.probe;
            result = b.result;
          }
    ];
  }

  -- A daemon that was not there, on the answer of `modprobe`.
  loaded_Started :
      (k name : Bytes) (ds : Dict ℕ) (ms : List Bytes) (r : Bool × List Bytes)
      → modprobe l syms fuel name ms ≡ some r
      → Loads name ms r
      → find k ds ≡ none
      → Good
          ((k, name) ∷ [])
          (ds, ms)
          (if r.0 then instanciated k (l.instanciate name k) ds else ds, r.1)
  unfolding find
  loaded_Started k name ds ms r pr q new =
      let step = λ (j : Bytes). find_answered r.0 k j (l.instanciate name k) ds new in
      record {
        keeps = q.keeps;
        running = λ j d e. elim (bytes_cases k j) [
          | inl (p, t) ↦ absurd (none-some d (sym new ∙ ap (λ i. find i ds) p ∙ e))
          | inr (p, t) ↦ step j ∙ rw t e
        ];
        absent = λ j c e. elim (bytes_cases k j) [
          | inl (p, t) ↦ absurd (ground (arith, c, t))
          | inr (p, t) ↦ step j ∙ rw t e
        ];
        begun = λ j n u c e. elim (bytes_cases k j) [
          | inl (p, t) ↦
              let same : name ≡ n = some-injective _ _ (rw t at c) in
              record {
                modules = ms;
                answer = r;
                before = λ x w. w;
                after = λ x w. w;
                probe = ap (λ (x : Bytes). modprobe l syms fuel x ms) (sym same) ∙ pr;
                result =
                    step j
                    ∙ rw t (
                        ap (λ (x : Bytes). if r.0 then created (l.instanciate x k) else none) same
                        ∙ ap (λ (x : Bytes). if r.0 then created (l.instanciate n x) else none) p);
              }
          | inr (p, t) ↦ absurd (ground (arith, c, t))
        ];
      }

  load_daemon-Started :
      (k name : Bytes) (t : Dict ℕ × List Bytes)
      → Returns (Good ((k, name) ∷ []) t) (load_daemon l syms fuel k name t)
  unfolding load_daemon
  load_daemon-Started k name (ds, ms) = elim (Bool-cases (has_key k ds)) [
    | inl h ↦ rw h (same_Started k name (ds, ms) h)
    | inr h ↦
        let (r, e, q) =
          Returns-some (Loads name ms) (modprobe l syms fuel name ms)
            (modprobe_ends l syms rank bound fuel name ms ranked b f) in
        rw (h, e) (loaded_Started k name ds ms r e q (has_key-none k ds h))
  ]

  pub load_daemons-Started :
      (cfg : Dict Bytes) (t : Dict ℕ × List Bytes)
      → Returns (Good cfg t) (load_daemons l syms fuel cfg t)
  unfolding load_daemons
  load_daemons-Started [] t = none_Started t
  load_daemons-Started ((k, name) ∷ cfg) t =
      Returns-bind (Good ((k, name) ∷ []) t) (Good ((k, name) ∷ cfg) t)
        (load_daemon l syms fuel k name t) _ (load_daemon-Started k name t)
        (λ t' h.
          Returns-mono (Good cfg t') (Good ((k, name) ∷ cfg) t) (load_daemons l syms fuel cfg t')
            (load_daemons-Started cfg t') (λ t'' h'. then_Started k name cfg t t' t'' h h'))
