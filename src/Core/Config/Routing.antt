-- ===== src/Core/Config/Routing.antt =====
-- The settings and the ports together: where a TCP connection goes after `reloadConfig`.
use pinetd.Prelude.{
  ℕ, ◌≤◌, ◌≡◌, refl, sym, ap, ◌∙◌, if◌then◌else◌, Bool, Option, none, some, Bytes, find, Bool-cases,
  inl, inr,
}
use mathlib.Core.Path.{ap₂, subst}
use pinetd.Prelude.Fault.{Returns, Returns-mono}
use pinetd.Core.Port.{Port, new_port, set_target}
use pinetd.Core.Tcp.{Incoming, incoming_connection}
use pinetd.Core.Wiring.{
  IsWired, routed, set_target-IsWired, set_target-receiver, incoming-routed, new_port-IsWired,
}
use pinetd.Core.Modules.{Loader}
use pinetd.Core.Modules.Loading.{IsRanked}
use pinetd.Core.Config.{
  Settings, Sockets, Core, get_daemon, at, tcp_parts, tcp_target, opens_host, reload_config,
}
use pinetd.Core.Config.Ports.{IsUnique, reloaded}
use pinetd.Core.Config.Daemons.{IsFuel}
use pinetd.Core.Config.Reload.{Reloads, reload_config-Reloads}

-- Every TCP port is connected to its receiver, once, and to nobody else.
abbrev pub IsWiredCore : Core → Type 0
IsWiredCore c = (k : Bytes) (p : Port) → find k c.port_tcp ≡ some p → IsWired p

-- What becomes of a connection to a key, if something listens there.
abbrev pub connection : Option Port → Option Incoming
connection none = none
connection (some p) = some (incoming_connection p)

-- What should become of it, for the value of the key and the port that was there.
abbrev pub destination : Sockets → Core → Bytes → Option Bytes → Option Port → Option Incoming
destination o c k none old = none
destination o c k (some v) (some p) =
    some (routed (get_daemon c (at (tcp_parts v) 0)) (at (tcp_parts v) 1))
destination o c k (some v) none =
    if opens_host o.listen k v
    then some (routed (get_daemon c (at (tcp_parts v) 0)) (at (tcp_parts v) 1))
    else none

set_target-routed :
    (d : Option ℕ) (entry : Bytes) (p : Port)
    → IsWired p
    → incoming_connection (set_target d entry p) ≡ routed d entry
set_target-routed d entry p w =
    let (r, e) = set_target-receiver d entry p in
    incoming-routed (set_target d entry p) (set_target-IsWired d entry p w) ∙ ap₂ routed r e

-- A port as an option is wired if there is one.
abbrev IsWiredOption : Option Port → Type 0
IsWiredOption none = Unit {0}
IsWiredOption (some p) = IsWired p

find-IsWired :
    (k : Bytes) (c : Core) (o : Option Port)
    → IsWiredCore c
    → find k c.port_tcp ≡ o
    → IsWiredOption o
find-IsWired k c none w e = tt
find-IsWired k c (some p) w e = w k p e

reloaded-IsWired :
    (opens : Bytes → Bytes → Bool) (target : Bytes → Option ℕ × Bytes) (k : Bytes)
    (v : Option Bytes) (o : Option Port)
    → IsWiredOption o
    → IsWiredOption (reloaded opens target k v o)
reloaded-IsWired opens target k none o w = tt
reloaded-IsWired opens target k (some v) (some p) w =
    set_target-IsWired (target v).0 (target v).1 p w
reloaded-IsWired opens target k (some v) none w = elim (Bool-cases (opens k v)) [
  | inl e ↦ rw e (set_target-IsWired (target v).0 (target v).1 new_port new_port-IsWired)
  | inr e ↦ rw e tt
]

reloaded-connection :
    (o : Sockets) (c : Core) (k : Bytes) (v : Option Bytes) (old : Option Port)
    → IsWiredOption old
    → connection (reloaded (opens_host o.listen) (tcp_target c) k v old) ≡ destination o c k v old
unfolding tcp_target
reloaded-connection o c k none old w = refl
reloaded-connection o c k (some v) (some p) w = ap (λ i. some i) (set_target-routed _ _ p w)
reloaded-connection o c k (some v) none w = elim (Bool-cases (opens_host o.listen k v)) [
  | inl e ↦ rw e (ap (λ i. some i) (set_target-routed _ _ new_port new_port-IsWired))
  | inr e ↦ rw e refl
]

-- What `reloadConfig` makes of the connections.
pub record Routes (o : Sockets) (s : Settings) (c c' : Core) : Type 0 where
  pub wired : IsWiredCore c'
  pub goes :
      (k : Bytes)
      → connection (find k c'.port_tcp) ≡ destination o c' k (find k s.tcp) (find k c.port_tcp)

Reloads-Routes :
    (l : Loader) (fuel : ℕ) (o : Sockets) (s : Settings) (c c' : Core)
    → IsWiredCore c
    → Reloads l fuel o s c c'
    → Routes o s c c'
Reloads-Routes l fuel o s c c' w h = record {
  wired = λ k p e. subst IsWiredOption (sym (h.tcp k) ∙ e) (
      reloaded-IsWired (opens_host o.listen) (tcp_target c') k (find k s.tcp) (find k c.port_tcp)
        (find-IsWired k c (find k c.port_tcp) w refl));
  goes = λ k.
      ap connection (h.tcp k)
      ∙ reloaded-connection o c' k (find k s.tcp) (find k c.port_tcp)
          (find-IsWired k c (find k c.port_tcp) w refl);
}

-- If no module needs or preloads one of its own rank or above, ranks are bounded, the fuel is enough for the
-- bound, keys are configured once, and the TCP ports are wired, `reloadConfig` ends, and they are wired
-- again. A connection to a key that is configured, and was there or could be opened, is then handed by
-- exactly one call to the daemon that the value names in the new table, under the entry that it
-- names, or closed where there is no such daemon; on any other key nothing listens.
pub reload_config-Routes :
    (l : Loader) (o : Sockets) (s : Settings) (rank : Bytes → ℕ) (bound fuel : ℕ) (c : Core)
    → IsRanked l c.sym_map rank
    → ((n : Bytes) → rank n ≤ bound)
    → IsFuel c.sym_map bound fuel
    → IsUnique s.daemons
    → IsUnique s.tcp
    → IsUnique s.udp
    → IsUnique s.udg
    → IsWiredCore c
    → Returns (Routes o s c) (reload_config l o s fuel c)
reload_config-Routes l o s rank bound fuel c ranked b f ud ut uu ug w =
    Returns-mono (Reloads l fuel o s c) (Routes o s c) (reload_config l o s fuel c)
      (reload_config-Reloads l o s rank bound fuel c ranked b f ud ut uu ug)
      (λ c' h. Reloads-Routes l fuel o s c c' w h)
