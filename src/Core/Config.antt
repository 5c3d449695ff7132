-- ===== src/Core/Config.antt =====
-- mod/core/Core.cpp: `reloadConfig`, `getConfig` and `getDaemon`, the tables of daemons and ports. The
-- lock is not modelled. A daemon or port that is left out is deleted later, from the event loop.
pub mod Ports
pub mod Daemons
pub mod Reload
pub mod Routing
use pinetd.Prelude.{
  ℕ, zero, suc, ◌-◌, ◌+◌, ◌==◌, if◌then◌else◌, not, ◌&&◌, List, [], ◌∷◌, ◌++◌, Bool, true, false,
  Option, none, some, Bytes, length, get_or, replicate, split, Dict, find, has_key, put, remove,
}
use pinetd.Prelude.Fault.{◌>>=◌}
use pinetd.Core.Port.{Port, new_port, set_target, main_entry}
use pinetd.Core.Modules.{Loader, modprobe, reload_symbols}

-- The groups of pinetd.ini: `conf` is by the name of the daemon, without "conf-".
pub record Settings : Type 0 where
  pub preload : Dict Bytes
  pub daemons : Dict Bytes
  pub tcp : Dict Bytes
  pub udp : Dict Bytes
  pub udg : Dict Bytes
  pub conf : Dict (Dict Bytes)

-- What the system answers: to `listen` and `bind` with the texts of host and port, and whether a Unix
-- socket at a path is valid.
pub record Sockets : Type 0 where
  pub listen : Bytes → Bytes → Bool
  pub bind : Bytes → Bytes → Bool
  pub valid : Bytes → Bool

-- `Core`. Daemons go by numbers.
pub record Core : Type 0 where
  pub daemons : Dict ℕ
  pub modules : List Bytes
  pub sym_map : Dict Bytes
  pub port_tcp : Dict Port
  pub port_udp : Dict Port
  pub port_udg : Dict Port

-- `getDaemon`: the daemon, or null.
unfoldable pub get_daemon : Core → Bytes → Option ℕ
get_daemon c key = find key c.daemons

-- `getConfig`
unfoldable pub insert_all : Dict Bytes → Dict Bytes → Dict Bytes
insert_all [] res = res
insert_all ((k, v) ∷ m) res = insert_all m (put k v res)

unfoldable pub get_config : Settings → Bytes → Dict Bytes
unfolding insert_all
get_config s daemon = elim (find daemon s.conf) [ none ↦ [] | some m ↦ insert_all m [] ]

-- What is left of `cur_daemons`, `cur_tcp`, `cur_udp` or `cur_udg` after the loop: the keys of the table
-- that are not configured.
unfoldable pub stale : {A : Type 0} → Dict Bytes → Dict A → List Bytes
stale cfg [] = []
stale cfg ((k, a) ∷ m) = let rest = stale cfg m in if has_key k cfg then rest else k ∷ rest

-- The loops of `take(*i)` over them.
unfoldable pub take_all : {A : Type 0} → List Bytes → Dict A → Dict A
take_all [] m = m
take_all (k ∷ ks) m = take_all ks (remove k m)

-- The group "preload": a module that does not load is passed over.
unfoldable pub load_modules :
    Loader → Dict Bytes → ℕ → Dict Bytes → List Bytes → Option (List Bytes)
load_modules l syms fuel [] ms = some ms
load_modules l syms fuel ((k, name) ∷ cfg) ms = do
  (ok, ms') ← modprobe l syms fuel name ms
  load_modules l syms fuel cfg ms'

-- What `pinetd_instanciate` gives: not there, null, or a daemon for the table.
unfoldable pub instanciated : Bytes → Option (Option ℕ) → Dict ℕ → Dict ℕ
instanciated k (some (some d)) ds = put k d ds
instanciated k _ ds = ds

-- A round of the loop over the group "daemons".
unfoldable pub load_daemon :
    Loader → Dict Bytes → ℕ → Bytes → Bytes → Dict ℕ × List Bytes → Option (Dict ℕ × List Bytes)
unfolding instanciated
load_daemon l syms fuel k name (ds, ms) = if has_key k ds then some (ds, ms) else do
  (ok, ms') ← modprobe l syms fuel name ms
  some (if ok then instanciated k (l.instanciate name k) ds else ds, ms')

unfoldable pub load_daemons :
    Loader → Dict Bytes → ℕ → Dict Bytes → Dict ℕ × List Bytes → Option (Dict ℕ × List Bytes)
load_daemons l syms fuel [] t = some t
load_daemons l syms fuel ((k, name) ∷ cfg) t = do
  t' ← load_daemon l syms fuel k name t
  load_daemons l syms fuel cfg t'

-- `tgt.at(i)`; the lists are padded to the places that are read.
unfoldable pub at : List Bytes → ℕ → Bytes
at xs i = get_or xs i []

-- `if (tgt.size() == 1) tgt.append("main")`
unfoldable pub tcp_parts : Bytes → List Bytes
tcp_parts v = if length (split 58 v) == 1 then split 58 v ++ (main_entry ∷ []) else split 58 v

-- `while(tgt.size() < 3) tgt.append("main")`
unfoldable pub udg_parts : Bytes → List Bytes
udg_parts v = split 58 v ++ replicate (3 - length (split 58 v)) main_entry

-- The daemon and the entry that a value names.
unfoldable pub tcp_target : Core → Bytes → Option ℕ × Bytes
unfolding get_daemon
tcp_target c v = (get_daemon c (at (tcp_parts v) 0), at (tcp_parts v) 1)

unfoldable pub udg_target : Core → Bytes → Option ℕ × Bytes
unfolding get_daemon
udg_target c v = (get_daemon c (at (udg_parts v) 1), at (udg_parts v) 2)

-- A key that is host:port, and the answer to `listen` or `bind` there.
unfoldable pub opens_host : (Bytes → Bytes → Bool) → Bytes → Bytes → Bool
opens_host answer k v = elim (split 58 k) [ host ∷ port ∷ [] ↦ answer host port | _ ↦ false ]

unfoldable pub opens_path : (Bytes → Bool) → Bytes → Bytes → Bool
opens_path valid k v = valid (at (udg_parts v) 0)

-- A round of the loop over a group of ports: a port that is there gets its target anew, another is
-- opened if it can be.
unfoldable pub load_port : Bool → Option ℕ × Bytes → Bytes → Option Port → Dict Port → Dict Port
load_port opens (d, entry) k (some p) ports = put k (set_target d entry p) ports
load_port opens (d, entry) k none ports =
    if opens then put k (set_target d entry new_port) ports else ports

unfoldable pub load_ports :
    (Bytes → Bytes → Bool) → (Bytes → Option ℕ × Bytes) → Dict Bytes → Dict Port → Dict Port
unfolding load_port
load_ports opens target [] ports = ports
load_ports opens target ((k, v) ∷ cfg) ports =
    load_ports opens target cfg (load_port (opens k v) (target v) k (find k ports) ports)

-- A group of ports: the loop, and the removal of what is not configured.
unfoldable pub reload_ports :
    (Bytes → Bytes → Bool) → (Bytes → Option ℕ × Bytes) → Dict Bytes → Dict Port → Dict Port
unfolding load_ports stale take_all
reload_ports opens target cfg ports = take_all (stale cfg ports) (load_ports opens target cfg ports)

-- The groups "preload" and "daemons".
unfoldable pub reload_daemons : Loader → Settings → ℕ → Core → Option Core
unfolding load_modules load_daemons stale take_all
reload_daemons l s fuel c = do
  ms ← load_modules l c.sym_map fuel s.preload c.modules
  (ds, ms') ← load_daemons l c.sym_map fuel s.daemons (c.daemons, ms)
  some (record c { daemons = take_all (stale s.daemons c.daemons) ds; modules = ms' })

unfoldable pub reload_tcp : Sockets → Settings → Core → Core
reload_tcp o s c = record c {
  port_tcp = reload_ports (opens_host o.listen) (tcp_target c) s.tcp c.port_tcp;
}

unfoldable pub reload_udp : Sockets → Settings → Core → Core
reload_udp o s c = record c {
  port_udp = reload_ports (opens_host o.bind) (tcp_target c) s.udp c.port_udp;
}

unfoldable pub reload_udg : Sockets → Settings → Core → Core
reload_udg o s c = record c {
  port_udg = reload_ports (opens_path o.valid) (udg_target c) s.udg c.port_udg;
}

-- `reloadConfig`
unfoldable pub reload_config : Loader → Sockets → Settings → ℕ → Core → Option Core
unfolding reload_daemons reload_tcp reload_udp reload_udg
reload_config l o s fuel c = do
  c' ← reload_daemons l s fuel c
  some (reload_udg o s (reload_udp o s (reload_tcp o s c')))

-- `Core::Core`, with the lines of the symbol table, if its file is there.
unfoldable pub new_core : Loader → Sockets → Settings → ℕ → Option (List Bytes) → Option Core
new_core l o s fuel lines = do
  syms ← reload_symbols lines
  reload_config l o s fuel (record {
    daemons = [];
    modules = [];
    sym_map = syms;
    port_tcp = [];
    port_udp = [];
    port_udg = [];
  })
