-- ===== src/Core/Modules.antt =====
-- mod/core/Core.cpp: `reloadSymbols` and `modprobe`, the modules and who defines which symbol. What
-- the dynamic loader answers is a parameter.
pub mod Fuel
pub mod Loading
use pinetd.Prelude.{
  ℕ, zero, suc, if◌then◌else◌, List, [], ◌∷◌, Bool, true, false, Option, none, some, Bytes, codes,
  bytes_eq, take, split, Dict, find, put, has, add,
}
use pinetd.Prelude.Fault.{◌>>=◌}
use pinetd.Line.{trimmed}

-- The loader and the daemons' constructors. `load` is QLibrary::load, with the modules that are loaded
-- and the hint to export symbols: `none`, or the text of its error. `undefined_symbol` is what the
-- regular expression captures in that text, and `instanciate` what `pinetd_instanciate` returns, which
-- may be null.
pub record Loader : Type 0 where
  pub load : List Bytes → Bool → Bytes → Option Bytes
  pub undefined_symbol : Bytes → Option Bytes
  pub instanciate : Bytes → Bytes → Option (Option ℕ)

-- `takeFirst` twice: a line with one word only faults.
unfoldable pub read_symbol : List Bytes → Dict Bytes → Option (Dict Bytes)
read_symbol (mod_name ∷ sym ∷ rest) m = some (put sym mod_name m)
read_symbol _ m = none

-- The loop of `reloadSymbols` over the lines of symbols.txt; an empty one ends it.
unfoldable pub read_symbols : List Bytes → Dict Bytes → Option (Dict Bytes)
unfolding read_symbol
read_symbols [] m = some m
read_symbols ([] ∷ ls) m = some m
read_symbols ((b ∷ bs) ∷ ls) m = do
  m' ← read_symbol (split 32 (trimmed (b ∷ bs))) m
  read_symbols ls m'

-- `reloadSymbols`; no file leaves an empty table.
unfoldable pub reload_symbols : Option (List Bytes) → Option (Dict Bytes)
reload_symbols none = some []
reload_symbols (some ls) = read_symbols ls []

-- `name.left(4) == "ext/"`
unfoldable pub is_extension : Bytes → Bool
is_extension name = bytes_eq (take 4 name) (101 ∷ 120 ∷ 116 ∷ 47 ∷ [])

-- The modules of which `pinetd_preload` calls `modprobe`, in order: two modules have that function.
unfoldable pub preload_modules : Bytes → List Bytes
unfolding bytes_eq
preload_modules name =
    if bytes_eq name (codes "daemon/bitcoinconnector")
    then codes "ext/bitcoin" ∷ codes "ext/elasticsearch" ∷ []
    else if bytes_eq name (codes "daemon/midasinput")
    then codes "ext/qamqp" ∷ []
    else []

-- The module that defines the symbol of which the error speaks.
unfoldable pub provider : Loader → Dict Bytes → Bytes → Option Bytes
provider l syms err = do sym ← l.undefined_symbol err; find sym syms

-- The test of `modprobe` before anything else.
unfoldable pub unless_loaded :
    (Bytes → List Bytes → Option (Bool × List Bytes))
    → Bytes
    → List Bytes
    → Option (Bool × List Bytes)
unless_loaded probe name ms = if has name ms then some (true, ms) else probe name ms

-- `pinetd_preload`, which returns false at the first module that does not load.
unfoldable pub preload_all :
    (Bytes → List Bytes → Option (Bool × List Bytes))
    → List Bytes
    → List Bytes
    → Option (Bool × List Bytes)
unfolding unless_loaded
preload_all probe [] ms = some (true, ms)
preload_all probe (m ∷ rest) ms = do
  (ok, ms') ← unless_loaded probe m ms
  if ok then preload_all probe rest ms' else some (false, ms')

-- A library that has loaded: `pinetd_preload`, and then the entry in `modules`.
unfoldable pub preloaded : Bytes → Bool × List Bytes → Bool × List Bytes
preloaded name (true, ms) = (true, add name ms)
preloaded name (false, ms) = (false, ms)

unfoldable pub after_load :
    (Bytes → List Bytes → Option (Bool × List Bytes))
    → Bytes
    → List Bytes
    → Option (Bool × List Bytes)
unfolding preload_all preload_modules preloaded
after_load probe name ms = do
  r ← preload_all probe (preload_modules name) ms
  some (preloaded name r)

-- After an error: load the provider and try again, or give up.
unfoldable pub after_error :
    (Bytes → List Bytes → Option (Bool × List Bytes))
    → Bytes
    → List Bytes
    → Option Bytes
    → Option (Bool × List Bytes)
after_error probe name ms none = some (false, ms)
after_error probe name ms (some mod_name) = if has mod_name ms then some (false, ms) else do
  (ok, ms') ← unless_loaded probe mod_name ms
  if ok then probe name ms' else some (false, ms')

-- A round of the loop of `modprobe`, by what the loader answers.
unfoldable pub load_round :
    Loader
    → Dict Bytes
    → (Bytes → List Bytes → Option (Bool × List Bytes))
    → Bytes
    → List Bytes
    → Option Bytes
    → Option (Bool × List Bytes)
unfolding after_load provider after_error
load_round l syms probe name ms none = after_load probe name ms
load_round l syms probe name ms (some err) = after_error probe name ms (provider l syms err)

-- The loop of `modprobe` with the calls of itself, on fuel: whether the module is loaded, and all that
-- are; `none` when the fuel is used up.
unfoldable pub load_loop : Loader → Dict Bytes → ℕ → Bytes → List Bytes → Option (Bool × List Bytes)
unfolding load_round
load_loop l syms zero name ms = none
load_loop l syms (suc fuel) name ms =
    load_round l syms (load_loop l syms fuel) name ms (l.load ms (is_extension name) name)

-- `modprobe`
unfoldable pub modprobe : Loader → Dict Bytes → ℕ → Bytes → List Bytes → Option (Bool × List Bytes)
unfolding unless_loaded
modprobe l syms fuel name ms = unless_loaded (load_loop l syms fuel) name ms
