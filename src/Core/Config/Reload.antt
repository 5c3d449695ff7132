-- ===== src/Core/Config/Reload.antt =====
-- `reloadConfig` as a whole.
use pinetd.Prelude.{ℕ, ◌≤◌, ◌≡◌, refl, ap, ◌∙◌, List, none, some, Bytes, Dict, find}
use pinetd.Core.Port.{Port}
use pinetd.Prelude.Fault.{Returns, Returns-bind}
use pinetd.Core.Modules.{Loader}
use pinetd.Core.Modules.Fuel.{Keeps}
use pinetd.Core.Modules.Loading.{IsRanked}
use pinetd.Core.Config.{
  Settings, Sockets, Core, stale, take_all, load_modules, load_daemons, tcp_target, udg_target,
  opens_host, opens_path, reload_daemons, reload_tcp, reload_udp, reload_udg, reload_config,
}
use pinetd.Core.Config.Ports.{IsUnique, reloaded, take_all-kept, take_all-gone, find-reload_ports}
use pinetd.Core.Config.Daemons.{IsFuel, Begun, Started, load_modules-Keeps, load_daemons-Started}

-- What `reloadConfig` makes of the tables.
pub record Reloads (l : Loader) (fuel : ℕ) (o : Sockets) (s : Settings) (c c' : Core) : Type 0 where
  pub modules : Keeps c.modules c'.modules
  pub gone : (k : Bytes) → find k s.daemons ≡ none → find k c'.daemons ≡ none
  pub running :
      (k v : Bytes) (d : ℕ)
      → find k s.daemons ≡ some v
      → find k c.daemons ≡ some d
      → find k c'.daemons ≡ some d
  pub begun :
      (k v : Bytes)
      → find k s.daemons ≡ some v
      → find k c.daemons ≡ none
      → Begun l c.sym_map fuel k v c.modules c'.modules (find k c'.daemons)
  pub tcp :
      (k : Bytes)
      → find k c'.port_tcp
        ≡ reloaded (opens_host o.listen) (tcp_target c') k (find k s.tcp) (find k c.port_tcp)
  pub udp :
      (k : Bytes)
      → find k c'.port_udp
        ≡ reloaded (opens_host o.bind) (tcp_target c') k (find k s.udp) (find k c.port_udp)
  pub udg :
      (k : Bytes)
      → find k c'.port_udg
        ≡ reloaded (opens_path o.valid) (udg_target c') k (find k s.udg) (find k c.port_udg)

-- The same for the first two groups, which leave the ports alone.
record Starts (l : Loader) (fuel : ℕ) (s : Settings) (c c' : Core) : Type 0 where
  modules : Keeps c.modules c'.modules
  gone : (k : Bytes) → find k s.daemons ≡ none → find k c'.daemons ≡ none
  running :
      (k v : Bytes) (d : ℕ)
      → find k s.daemons ≡ some v
      → find k c.daemons ≡ some d
      → find k c'.daemons ≡ some d
  begun :
      (k v : Bytes)
      → find k s.daemons ≡ some v
      → find k c.daemons ≡ none
      → Begun l c.sym_map fuel k v c.modules c'.modules (find k c'.daemons)
  tcp : c'.port_tcp ≡ c.port_tcp
  udp : c'.port_udp ≡ c.port_udp
  udg : c'.port_udg ≡ c.port_udg

Started-Starts :
    (l : Loader) (fuel : ℕ) (s : Settings) (c : Core) (ms : List Bytes) (t : Dict ℕ × List Bytes)
    → IsUnique s.daemons
    → Keeps c.modules ms
    → Started l c.sym_map fuel s.daemons (c.daemons, ms) t
    → Starts l fuel s c
        (record c { daemons = take_all (stale s.daemons c.daemons) t.0; modules = t.1 })
Started-Starts l fuel s c ms (ds, ms') u h q = record {
  modules = λ x w. q.keeps x (h x w);
  gone = λ k e. take_all-gone k s.daemons c.daemons ds e (q.absent k e);
  running = λ k v d e w. take_all-kept k v s.daemons c.daemons ds e ∙ q.running k d w;
  begun = λ k v e w.
      (let b = q.begun k v u e w in
        record {
          modules = b.modules;
          answer = b.answer;
          before = λ x y. b.before x (h x y);
          after = b.after;
          probe = b.probe;
          result = take_all-kept k v s.daemons c.daemons ds e ∙ b.result;
        });
  tcp = refl;
  udp = refl;
  udg = refl;
}

ports-Reloads :
    (l : Loader) (fuel : ℕ) (o : Sockets) (s : Settings) (c c' : Core)
    → IsUnique s.tcp
    → IsUnique s.udp
    → IsUnique s.udg
    → Starts l fuel s c c'
    → Reloads l fuel o s c (reload_udg o s (reload_udp o s (reload_tcp o s c')))
unfolding reload_tcp reload_udp reload_udg tcp_target udg_target
ports-Reloads l fuel o s c c' ut uu ug h = record {
  modules = h.modules;
  gone = h.gone;
  running = h.running;
  begun = h.begun;
  tcp = λ k.
      find-reload_ports (opens_host o.listen) (tcp_target c') k s.tcp c'.port_tcp ut
      ∙ ap
          (λ (t : Dict Port).
            reloaded (opens_host o.listen) (tcp_target c') k (find k s.tcp) (find k t))
          h.tcp;
  udp = λ k.
      find-reload_ports (opens_host o.bind) (tcp_target c') k s.udp c'.port_udp uu
      ∙ ap
          (λ (t : Dict Port).
            reloaded (opens_host o.bind) (tcp_target c') k (find k s.udp) (find k t))
          h.udp;
  udg = λ k.
      find-reload_ports (opens_path o.valid) (udg_target c') k s.udg c'.port_udg ug
      ∙ ap
          (λ (t : Dict Port).
            reloaded (opens_path o.valid) (udg_target c') k (find k s.udg) (find k t))
          h.udg;
}

-- If no module needs or preloads one of its own rank or above, ranks are bounded, the fuel is enough for the
-- bound, and keys are configured once, `reloadConfig` ends. Then modules stay loaded; a daemon that is
-- not configured is not in the table; one that is and was running is the same; one that is and was not running is
-- there exactly if `modprobe` of its module answered true on the modules of that time, and `pinetd_instanciate`
-- is there and gave it; and in each table of ports a key has a port exactly if it is configured and was there or
-- could be opened, with the target that its value names in the new table of daemons.
pub reload_config-Reloads :
    (l : Loader) (o : Sockets) (s : Settings) (rank : Bytes → ℕ) (bound fuel : ℕ) (c : Core)
    → IsRanked l c.sym_map rank
    → ((n : Bytes) → rank n ≤ bound)
    → IsFuel c.sym_map bound fuel
    → IsUnique s.daemons
    → IsUnique s.tcp
    → IsUnique s.udp
    → IsUnique s.udg
    → Returns (Reloads l fuel o s c) (reload_config l o s fuel c)
unfolding reload_config reload_daemons
reload_config-Reloads l o s rank bound fuel c ranked b f ud ut uu ug =
    let result = λ (c' : Core). reload_udg o s (reload_udp o s (reload_tcp o s c')) in
    Returns-bind (Starts l fuel s c) (Reloads l fuel o s c) (reload_daemons l s fuel c)
      (λ c'. some (result c'))
      (Returns-bind (Keeps c.modules) (Starts l fuel s c)
        (load_modules l c.sym_map fuel s.preload c.modules) _
        (load_modules-Keeps l c.sym_map rank bound fuel ranked b f s.preload c.modules)
        (λ ms h.
          Returns-bind (Started l c.sym_map fuel s.daemons (c.daemons, ms)) (Starts l fuel s c)
            (load_daemons l c.sym_map fuel s.daemons (c.daemons, ms)) _
            (load_daemons-Started l c.sym_map rank bound fuel ranked b f s.daemons (c.daemons, ms))
            (λ t q. Started-Starts l fuel s c ms t ud h q)))
      (λ c' h. ports-Reloads l fuel o s c c' ut uu ug h)
