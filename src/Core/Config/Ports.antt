-- ===== src/Core/Config/Ports.antt =====
-- `reloadConfig` on a group of ports: what becomes of each key.
use pinetd.Prelude.{
  ℕ, ◌≡◌, refl, sym, ap, ◌∙◌, if◌then◌else◌, List, [], ◌∷◌, Bool, true, false, not, ◌&&◌, Option,
  none, some, Bytes, bytes_eq, bytes_cases, Dict, find, has_key, remove, has, find-put, find-remove,
  has_key-find, Option-cases, inl, inr, arith,
}
use pinetd.Core.Port.{Port, new_port, set_target}
use pinetd.Core.Config.{stale, take_all, load_port, load_ports, reload_ports}

-- Keys are in a group once.
abbrev pub IsUnique : {A : Type 0} → Dict A → Type 0
IsUnique [] = Unit {0}
IsUnique ((k, a) ∷ m) = (find k m ≡ none) × IsUnique m

-- What a configured key has in the table afterwards.
abbrev pub configured : Bool → Option ℕ × Bytes → Option Port → Option Port
configured opens (d, entry) (some p) = some (set_target d entry p)
configured opens (d, entry) none = if opens then some (set_target d entry new_port) else none

-- What a key has in the table after the loop, by its value and what it had before.
abbrev pub looped :
    (Bytes → Bytes → Bool)
    → (Bytes → Option ℕ × Bytes)
    → Bytes
    → Option Bytes
    → Option Port
    → Option Port
looped opens target k none o = o
looped opens target k (some v) o = configured (opens k v) (target v) o

-- And after the whole: a key without a value is gone.
abbrev pub reloaded :
    (Bytes → Bytes → Bool)
    → (Bytes → Option ℕ × Bytes)
    → Bytes
    → Option Bytes
    → Option Port
    → Option Port
reloaded opens target k none o = none
reloaded opens target k (some v) o = configured (opens k v) (target v) o

pub find-take_all :
    {A : Type 0} (k : Bytes) (ks : List Bytes) (m : Dict A)
    → find k (take_all ks m) ≡ (if has k ks then none else find k m)
unfolding take_all has
find-take_all k [] m = refl
find-take_all k (j ∷ ks) m = ground (arith, find-take_all k ks (remove j m), find-remove j k m)

pub has-stale :
    {A : Type 0} (k : Bytes) (cfg : Dict Bytes) (m : Dict A)
    → has k (stale cfg m) ≡ (has_key k m && not (has_key k cfg))
unfolding stale has has_key
has-stale k cfg [] = refl
has-stale k cfg ((j, a) ∷ m) = elim (bytes_cases j k) [
  | inl (p, q) ↦
      let same : has_key j cfg ≡ has_key k cfg = ap (λ t. has_key t cfg) p in
      ground (arith, q, same, has-stale k cfg m)
  | inr (p, q) ↦ ground (arith, q, has-stale k cfg m)
]

-- A configured key stays, and one that is not goes, if the loop has not put it there.
pub take_all-kept :
    {A : Type 0} (k v : Bytes) (cfg : Dict Bytes) (old new : Dict A)
    → find k cfg ≡ some v
    → find k (take_all (stale cfg old) new) ≡ find k new
take_all-kept k v cfg old new c =
    ground (arith, c, find-take_all k (stale cfg old) new, has-stale k cfg old, has_key-find k cfg)

pub take_all-gone :
    {A : Type 0} (k : Bytes) (cfg : Dict Bytes) (old new : Dict A)
    → find k cfg ≡ none
    → (find k old ≡ none → find k new ≡ none)
    → find k (take_all (stale cfg old) new) ≡ none
take_all-gone k cfg old new c h = ground (
  arith,
  c,
  h,
  find-take_all k (stale cfg old) new,
  has-stale k cfg old,
  has_key-find k cfg,
  has_key-find k old,
)

find-load_port :
    (opens : Bool) (t : Option ℕ × Bytes) (j k : Bytes) (o : Option Port) (ports : Dict Port)
    → find j ports ≡ o
    → find k (load_port opens t j o ports)
      ≡ (if bytes_eq j k then configured opens t o else find k ports)
unfolding load_port
find-load_port opens (d, entry) j k (some p) ports e = find-put j k (set_target d entry p) ports
find-load_port true (d, entry) j k none ports e = find-put j k (set_target d entry new_port) ports
find-load_port false (d, entry) j k none ports e = elim (bytes_cases j k) [
  | inl (p, q) ↦ rw q (ap (λ t. find t ports) (sym p) ∙ e)
  | inr (p, q) ↦ rw q refl
]

find-load_ports :
    (opens : Bytes → Bytes → Bool) (target : Bytes → Option ℕ × Bytes) (k : Bytes)
    (cfg : Dict Bytes) (ports : Dict Port)
    → IsUnique cfg
    → find k (load_ports opens target cfg ports) ≡ looped opens target k (find k cfg) (find k ports)
unfolding load_ports find
find-load_ports opens target k [] ports u = refl
find-load_ports opens target k ((j, v) ∷ cfg) ports (u, us) =
    let ports' = load_port (opens j v) (target v) j (find j ports) ports in
    let later = find-load_ports opens target k cfg ports' us in
    let now = find-load_port (opens j v) (target v) j k (find j ports) ports refl in
    let here = configured (opens j v) (target v) (find j ports) in
    elim (bytes_cases j k) [
      | inl (p, q) ↦
          let gone : find k cfg ≡ none = ap (λ t. find t cfg) (sym p) ∙ u in
          rw q (
            later
            ∙ ap (λ t. looped opens target k t (find k ports')) gone
            ∙ now
            ∙ ap (λ (b : Bool). if b then here else find k ports) q
            ∙ ap (λ t. configured (opens t v) (target v) (find t ports)) p)
      | inr (p, q) ↦ rw q (
          later
          ∙ ap (λ t. looped opens target k (find k cfg) t)
              (now ∙ ap (λ (b : Bool). if b then here else find k ports) q))
    ]

pub find-reload_ports :
    (opens : Bytes → Bytes → Bool) (target : Bytes → Option ℕ × Bytes) (k : Bytes)
    (cfg : Dict Bytes) (ports : Dict Port)
    → IsUnique cfg
    → find k (reload_ports opens target cfg ports)
      ≡ reloaded opens target k (find k cfg) (find k ports)
unfolding reload_ports
find-reload_ports opens target k cfg ports u =
    let loop = load_ports opens target cfg ports in
    let step = find-load_ports opens target k cfg ports u in
    elim (Option-cases (find k cfg)) [
      | inl c ↦
          take_all-gone k cfg ports loop c
            (λ e. step ∙ ap (λ t. looped opens target k t (find k ports)) c ∙ e)
          ∙ ap (λ t. reloaded opens target k t (find k ports)) (sym c)
      | inr (v, c) ↦
          take_all-kept k v cfg ports loop c
          ∙ step
          ∙ ap (λ t. looped opens target k t (find k ports)) c
          ∙ ap (λ t. reloaded opens target k t (find k ports)) (sym c)
    ]
