-- ===== src/Tests/Ps.antt =====
-- Runs of mod/daemon/ps.
use pinetd.Prelude.{
  ◌≡◌, refl, ◌⊎◌, inl, List, [], ◌∷◌, ◌++◌, false, Bytes, replicate, arith, some, none, has_key,
  bytes_eq,
}
use pinetd.Prelude.Fault.{Returns}
use pinetd.Ps.Server.{Server, push_packet, push_packet_fuel, packet_length}
use pinetd.Ps.Client.{Client, handle_buffer}
use pinetd.Ps.System.{init, Event, connects, sends, datagram, leaves, reloads, run}
use pinetd.Ps.Refcount.Reachable.{Inv, run-init-Inv}
use pinetd.Ps.Framing.{handle_buffer-concat, with_buffer, handle_all}
use pinetd.Ps.Delivery.{push_packet_cases, IsDeliverable, signal_of}

abbrev subscribe : Bytes
subscribe = 0 ∷ 17 ∷ 0x81 ∷ replicate 16 65

abbrev news : Bytes
news = 0 ∷ 18 ∷ 0 ∷ (replicate 16 65 ++ (66 ∷ []))

-- One master, two clients on one channel, a datagram for it, and the end of a client.
abbrev history : List Event
history =
    reloads 1000 ((109 ∷ 58 ∷ 49 ∷ []) ∷ []) []
    ∷ connects
    ∷ sends 0 subscribe
    ∷ connects
    ∷ sends 0 subscribe
    ∷ datagram news
    ∷ leaves 1
    ∷ []

run-init-Inv_example : Returns Inv (run history init)
run-init-Inv_example = run-init-Inv history

abbrev empty_server : Server
empty_server = record { channel_refcount = []; masters = []; subscribe_limit = [] }

abbrev counted_server : Server
counted_server = record {
  channel_refcount = (replicate 16 65, 1) ∷ [];
  masters = [];
  subscribe_limit = [];
}

abbrev kept : Client
kept = record { buf_in = 0 ∷ []; channels = []; closed = false; written = [] }

handle_buffer-concat_example :
    handle_buffer (17 ∷ 0x81 ∷ (replicate 16 65 ++ (0 ∷ []))) empty_server kept
    ≡ with_buffer (0 ∷ []) (handle_all (subscribe ∷ []) empty_server kept)
unfolding packet_length
handle_buffer-concat_example =
    handle_buffer-concat (subscribe ∷ []) (0 ∷ []) (17 ∷ 0x81 ∷ (replicate 16 65 ++ (0 ∷ [])))
      empty_server kept refl (omega arith) (inl (omega arith)) (omega arith)

push_packet_cases_example :
    (IsDeliverable counted_server news × (push_packet counted_server news ≡ some (signal_of news)))
    ⊎ (¬ IsDeliverable counted_server news × (push_packet counted_server news ≡ none))
push_packet_cases_example = push_packet_cases counted_server news

push_news : push_packet counted_server (news ++ (1 ∷ 2 ∷ [])) ≡ some (signal_of news)
unfolding push_packet push_packet_fuel packet_length has_key bytes_eq
push_news = refl
