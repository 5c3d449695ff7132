-- ===== src/Tests/Config.antt =====
-- Runs of mod/core/Core.cpp: a module that needs another, one that needs itself, and a reload.
use pinetd.Prelude.{
  ℕ, ◌≤◌, ◌≡◌, refl, ap, if◌then◌else◌, [], ◌∷◌, true, none, some, Bytes, bytes_eq, Dict, find, has,
  Bool-cases, inl, inr, arith, codes, add, All, ◌<◌,
}
use mathlib.Core.Option.{some-injective}
use pinetd.Prelude.Fault.{Returns}
use pinetd.Core.Port.{new_port}
use pinetd.Core.Modules.{Loader, provider, modprobe, load_loop, preload_modules}
use pinetd.Core.Modules.Loading.{Loads, IsRanked, modprobe-Loads}
use pinetd.Core.Config.{Settings, Sockets, Core, reload_config}
use mathlib.Core.Path.{subst}
use pinetd.Core.Wiring.{IsWired, new_port-IsWired}
use pinetd.Core.Config.Routing.{IsWiredCore, Routes, reload_config-Routes}
use pinetd.Core.Config.Reload.{Reloads, reload_config-Reloads}

-- Module "a" misses the symbol "s" until module "x" is loaded.
abbrev loader : Loader
loader = record {
  load = λ ms hint name.
      if bytes_eq name (97 ∷ [])
      then (if has (120 ∷ []) ms then none else some (101 ∷ []))
      else none;
  undefined_symbol = λ err. some (115 ∷ []);
  instanciate = λ name key. some (some 7);
}

abbrev symbols : Dict Bytes
symbols = (115 ∷ [], 120 ∷ []) ∷ []

abbrev rank : Bytes → ℕ
rank name =
    if bytes_eq name (97 ∷ [])
    then 1
    else if bytes_eq name (codes "daemon/bitcoinconnector")
    then 1
    else if bytes_eq name (codes "daemon/midasinput")
    then 1
    else 0

rank_bound : (name : Bytes) → rank name ≤ 1
rank_bound name = ground arith

-- What is preloaded has rank 0.
rank_preloads : (name : Bytes) → All (λ m. rank m < rank name) (preload_modules name)
unfolding bytes_eq preload_modules
rank_preloads name = elim (Bool-cases (bytes_eq name (codes "daemon/bitcoinconnector"))) [
  | inl b ↦ rw b (ground arith, (ground arith, tt))
  | inr b ↦ rw b (elim (Bool-cases (bytes_eq name (codes "daemon/midasinput"))) [
    | inl m ↦ rw m (ground arith, tt)
    | inr m ↦ rw m tt
  ])
]

loader-IsRanked : IsRanked loader symbols rank
unfolding provider bytes_eq find
loader-IsRanked = record {
  symbols = λ name ms err m e p.
      (let q : rank (120 ∷ []) ≡ rank m = ap rank (some-injective _ _ p) in
        elim (Bool-cases (bytes_eq name (97 ∷ []))) [
          | inl t ↦ ground (arith, q, t)
          | inr t ↦ absurd (ground (arith, e, t))
        ]);
  preloads = rank_preloads;
}

modprobe-Loads_example : Returns (Loads (97 ∷ []) []) (modprobe loader symbols 9 (97 ∷ []) [])
unfolding has bytes_eq
modprobe-Loads_example =
    modprobe-Loads loader symbols rank 9 (97 ∷ []) [] loader-IsRanked (omega arith)

-- A module that preloads another, which stands before it.
midas_preloads :
    modprobe loader symbols 9 (codes "daemon/midasinput") []
    ≡ some (true, codes "daemon/midasinput" ∷ codes "ext/qamqp" ∷ [])
unfolding modprobe load_loop has add preload_modules bytes_eq
midas_preloads = refl

-- The table names "a" itself.
abbrev wrong : Dict Bytes
wrong = (115 ∷ [], 97 ∷ []) ∷ []

abbrev sockets : Sockets
sockets = record { listen = λ host port. true; bind = λ host port. true; valid = λ path. true }

-- "d" is a daemon of module "a", and "h:1" and "h:2" lead to it.
abbrev settings : Settings
settings = record {
  preload = [];
  daemons = (100 ∷ [], 97 ∷ []) ∷ [];
  tcp = (104 ∷ 58 ∷ 49 ∷ [], 100 ∷ []) ∷ (104 ∷ 58 ∷ 50 ∷ [], 100 ∷ 58 ∷ 101 ∷ []) ∷ [];
  udp = [];
  udg = [];
  conf = [];
}

abbrev before : Core
before = record {
  daemons = (111 ∷ [], 3) ∷ [];
  modules = [];
  sym_map = symbols;
  port_tcp = (104 ∷ 58 ∷ 50 ∷ [], new_port) ∷ [];
  port_udp = [];
  port_udg = [];
}

reload_config-Reloads_example :
    Returns
      (Reloads loader 9 sockets settings before)
      (reload_config loader sockets settings 9 before)
unfolding find bytes_eq
reload_config-Reloads_example =
    reload_config-Reloads loader sockets settings rank 1 9 before loader-IsRanked rank_bound
      (omega arith) (refl, tt) (refl, (refl, tt)) tt tt

before-IsWiredCore : IsWiredCore before
unfolding find
before-IsWiredCore k p e = elim (Bool-cases (bytes_eq (104 ∷ 58 ∷ 50 ∷ []) k)) [
  | inl t ↦ let q : new_port ≡ p = grind (arith, e, t) in subst IsWired q new_port-IsWired
  | inr t ↦ absurd (grind (arith, e, t))
]

reload_config-Routes_example :
    Returns (Routes sockets settings before) (reload_config loader sockets settings 9 before)
unfolding find bytes_eq
reload_config-Routes_example =
    reload_config-Routes loader sockets settings rank 1 9 before loader-IsRanked rank_bound
      (omega arith) (refl, tt) (refl, (refl, tt)) tt tt before-IsWiredCore
