-- ===== src/Ps/Masters.antt =====
-- mod/daemon/ps/ModPS.cpp: `checkMasters` and `reload`, which keep the connections to the masters.
use pinetd.Prelude.{
  ℕ, ◌+◌, ◌-◌, ◌%◌, ◌^◌, ltb, if◌then◌else◌, List, [], ◌∷◌, Option, none, some, Bytes, Dict,
  has_key, put, has, split,
}
use pinetd.Ps.Server.{
  SocketState, unconnected, host_lookup, connecting, connected, Master, Server, write_master,
}

abbrev pub ping : Bytes
ping =
    0x00 ∷ 0x19 ∷ 0x80 ∷ 0x50 ∷ 0x49 ∷ 0x4e ∷ 0x47 ∷ 0x5f ∷ 0x54 ∷ 0x43 ∷ 0x50 ∷ 0x5f ∷ 0x52 ∷ 0x45
    ∷ 0x51 ∷ 0x55 ∷ 0x45 ∷ 0x53 ∷ 0x54 ∷ 0x5f ∷ 0x50 ∷ 0x49 ∷ 0x4e ∷ 0x45 ∷ 0x54 ∷ 0x44 ∷ 0x34 ∷ []

-- `new QTcpSocket(this)`, stamped.
unfoldable pub new_master : ℕ → Master
new_master now = record { state = unconnected; stamp = now; sent = []; input = []; target = none }

-- `if (stamp < (now-60)) abort()`, in 64-bit unsigned arithmetic.
unfoldable pub abort_stale : ℕ → Master → Master
abort_stale now m =
    if ltb m.stamp ((now + 2 ^ 64 - 60) % 2 ^ 64) then record m { state = unconnected } else m

-- The `default` of the `switch`: a new attempt, if the key is host:port.
unfoldable pub reconnect : ℕ → Bytes → Master → Master
unfolding split
reconnect now key m = elim (split 58 key) [
  | host ∷ port ∷ [] ↦ record m { stamp = now; state = host_lookup; target = some (host, port) }
  | _ ↦ record m { stamp = now }
]

unfoldable pub check_state : ℕ → Bytes → SocketState → Master → Master
unfolding reconnect
check_state now key host_lookup m = m
check_state now key connecting m = m
check_state now key connected m = m
check_state now key _ m = reconnect now key m

unfoldable pub send_ping : SocketState → Master → Master
send_ping connected m = write_master ping m
send_ping _ m = m

-- One round of the loop of `checkMasters`.
unfoldable pub check_master : ℕ → Bytes → Option Master → Master
unfolding new_master abort_stale check_state send_ping
check_master now key o =
    let m : Master = elim o [ none ↦ new_master now | some m ↦ m ] in
    let m' = abort_stale now m in
    let m'' = check_state now key m'.state m' in send_ping m''.state m''

unfoldable pub check_entries : ℕ → Dict (Option Master) → Dict (Option Master)
unfolding check_master
check_entries now [] = []
check_entries now ((k, o) ∷ ms) = (k, some (check_master now k o)) ∷ check_entries now ms

-- `checkMasters`
unfoldable pub check_masters : ℕ → Server → Server
unfolding check_entries
check_masters now s = record s { masters = check_entries now s.masters }

-- The two loops of `reload`: names that are configured stay or are added, the others go.
unfoldable pub add_masters : List Bytes → Dict (Option Master) → Dict (Option Master)
add_masters [] ms = ms
add_masters (k ∷ ks) ms = add_masters ks (if has_key k ms then ms else put k none ms)

unfoldable pub drop_masters : List Bytes → Dict (Option Master) → Dict (Option Master)
drop_masters ks [] = []
drop_masters ks ((k, o) ∷ ms) =
    let rest = drop_masters ks ms in if has k ks then (k, o) ∷ rest else rest

-- `reload`, with the configured masters and the decoded subscribe limits, if there are any.
unfoldable pub reload : ℕ → List Bytes → List Bytes → Server → Server
unfolding add_masters drop_masters check_masters
reload now conf_masters limits s = check_masters now (record s {
  masters = drop_masters conf_masters (add_masters conf_masters s.masters);
  subscribe_limit = limits;
})
