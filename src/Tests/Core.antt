-- ===== src/Tests/Core.antt =====
-- Runs of mod/core.
use pinetd.Prelude.{◌≡◌, refl, List, [], ◌∷◌, ◌++◌, some, none, map}
use pinetd.Core.ClientTcp.{write, flush, is_empty, write_through, write_behind, flush_some}
use pinetd.Core.ClientTcp.Stream.{Call, writes, flushes, perform, run, fresh, run-fresh_complete}
use pinetd.Core.Port.{set_target, target_destroyed, same_receiver}
use pinetd.Core.Port
use pinetd.Core.Tcp.{moved, incoming_connection}
use pinetd.Core.Udp.{receive_datagram, datagram}
use pinetd.Core.Wiring
use pinetd.Core.Wiring.{
  retargets, destroys, after, routed, incoming_connection-set_target,
  incoming_connection-target_destroyed, receive_datagram-after,
}

-- The socket takes one byte of three, then two.
abbrev calls : List Call
calls = writes (some 1) (1 ∷ 2 ∷ 3 ∷ []) ∷ writes none (4 ∷ []) ∷ flushes (some 2) ∷ []

run-fresh_complete_example :
    (run calls (fresh [])).sent ++ (run calls (fresh [])).write_buf ≡ 1 ∷ 2 ∷ 3 ∷ 4 ∷ []
unfolding run perform write write_through write_behind flush flush_some is_empty
run-fresh_complete_example = run-fresh_complete calls [] refl

abbrev past : List Wiring.Call
past = retargets (some 4) (97 ∷ []) ∷ destroys 9 ∷ retargets (some 5) (98 ∷ []) ∷ []

incoming_connection-set_target_example :
    incoming_connection (set_target (some 5) (99 ∷ []) (after past)) ≡ moved 5 ((5, 99 ∷ []) ∷ [])
incoming_connection-set_target_example = incoming_connection-set_target past (some 5) (99 ∷ [])

receive_datagram-after_example :
    receive_datagram (some (1 ∷ []) ∷ none ∷ []) (after past)
    ≡ map (λ d. (5, datagram d)) (some (1 ∷ []) ∷ none ∷ [])
unfolding Wiring.run Wiring.perform set_target target_destroyed Port.new_port
receive_datagram-after_example = receive_datagram-after past 5 (some (1 ∷ []) ∷ none ∷ []) refl
