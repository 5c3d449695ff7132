-- ===== src/Tests/Connector.antt =====
-- Runs of mod/daemon/bitcoinconnector.
use pinetd.Prelude.{
  ◌-◌, ◌^◌, ◌%◌, ◌≡◌, refl, if◌then◌else◌, List, [], ◌∷◌, ◌++◌, false, none, some, Bytes, codes,
  bytes_eq, length, take, replicate, arith,
}
use pinetd.DataStream.{le_bytes}
use pinetd.Connector.{Peer, Slots, handle_buffer, packet_bytes, front}
use pinetd.Connector.Frames.{fields}
use pinetd.Connector.Stream.{Message, IsHash, invoke_all, handle_buffer-sent, handle_buffer-endless}

-- In the place of the hash, the length and three bytes.
abbrev toy_hash : Bytes → Bytes
toy_hash dat = length dat % 256 ∷ 1 ∷ 2 ∷ 3 ∷ []

toy_hash-IsHash : IsHash toy_hash
toy_hash-IsHash dat = omega arith

-- The contents of the pings.
abbrev slots : Slots (List Bytes)
slots type = if bytes_eq type (codes "ping") then some (λ dat pings. dat ∷ pings) else none

abbrev ping : Message
ping = record { type = codes "ping"; content = 7 ∷ [] }

abbrev peer : Peer (List Bytes)
peer = record { in_buf = 0xf9 ∷ []; closed = false; state = [] }

handle_buffer-sent_example :
    handle_buffer toy_hash slots 2
      (0xbe
        ∷ 0xb4
        ∷ 0xd9
        ∷ ((codes "ping" ++ replicate 8 0) ++ (1 ∷ 0 ∷ 0 ∷ 0 ∷ 1 ∷ 1 ∷ 2 ∷ 3 ∷ 7 ∷ 0xf9 ∷ [])))
      peer
    ≡ some (record { in_buf = 0xf9 ∷ []; closed = false; state = invoke_all slots (ping ∷ []) [] })
unfolding packet_bytes le_bytes front
handle_buffer-sent_example =
    handle_buffer-sent toy_hash toy_hash-IsHash slots (ping ∷ []) (0xf9 ∷ [])
      (0xbe
        ∷ 0xb4
        ∷ 0xd9
        ∷ ((codes "ping" ++ replicate 8 0) ++ (1 ∷ 0 ∷ 0 ∷ 0 ∷ 1 ∷ 1 ∷ 2 ∷ 3 ∷ 7 ∷ 0xf9 ∷ [])))
      peer refl
      (
        record {
          nonzero = (
            (λ e. omega arith),
            ((λ e. omega arith), ((λ e. omega arith), ((λ e. omega arith), tt))),
          );
          type = omega arith;
          content = omega arith;
        },
        tt,
      )
      refl

handle_buffer-endless_example :
    handle_buffer toy_hash slots 1000
      (fields (replicate 12 97) (2 ^ 32 - 24) (take 4 (toy_hash (5 ∷ []))) (5 ∷ []))
      (record { in_buf = []; closed = false; state = [] })
    ≡ none
handle_buffer-endless_example =
    handle_buffer-endless toy_hash toy_hash-IsHash slots 1000 (replicate 12 97) (5 ∷ []) false []
      refl
