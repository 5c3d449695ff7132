-- ===== src/Connector.antt =====
-- mod/daemon/bitcoinconnector/ModBitcoinConnectorClient.cpp: the frames of the Bitcoin protocol, by
-- `handleBuffer` and `sendPacket`. The hash and what the slots bitcoin_packet_... do with the rest of
-- the client's state are parameters.
pub mod Frames
pub mod Stream
pub mod Inventory
pub mod Handshake
pub mod Store
pub mod Blocks
pub mod Knowledge
pub mod Peers
pub mod Client
pub mod Gossip
pub mod Nested
use pinetd.Prelude.{
  ℕ, zero, suc, ◌+◌, ◌-◌, ◌%◌, ◌^◌, ltb, ◌==◌, if◌then◌else◌, not, List, [], ◌∷◌, ◌++◌, Bool, true,
  false, Option, none, some, Bytes, bytes_eq, length, take, drop, slice, replicate,
}
use pinetd.DataStream.{le_bytes, le_value}

abbrev pub magic : Bytes
magic = 0xf9 ∷ 0xbe ∷ 0xb4 ∷ 0xd9 ∷ []

-- The packet that `sendPacket` writes; a type has 12 bytes at most.
unfoldable pub packet_bytes : (Bytes → Bytes) → Bytes → Bytes → Bytes
packet_bytes hash type dat =
    magic
    ++ ((type ++ replicate (12 - length type) 0)
        ++ (le_bytes 4 (length dat % 2 ^ 32) ++ (take 4 (hash dat) ++ dat)))

-- `replace('\0', "")`
unfoldable pub without_zeros : Bytes → Bytes
without_zeros [] = []
without_zeros (b ∷ bs) = if b == 0 then without_zeros bs else b ∷ without_zeros bs

-- `in_buf.mid(24, len)`: a quint32 that is negative as an int takes all the rest.
unfoldable pub data_at : ℕ → Bytes → Bytes
data_at len buf = if ltb len (2 ^ 31) then slice 24 len buf else drop 24 buf

-- `24+len` in quint32.
unfoldable pub packet_size : ℕ → ℕ
packet_size len = (24 + len) % 2 ^ 32

-- What a round of the loop finds: too little, a packet to give up on, or a packet and what follows it.
pub data Front : Type 0 where
  waits : Front
  bad : Front
  packet : Bytes → Bytes → Bytes → Front

unfoldable pub checked : (Bytes → Bytes) → ℕ → Bytes → Front
unfolding without_zeros
checked hash len buf =
    if ltb (length buf) (packet_size len)
    then waits
    else if not (bytes_eq (slice 20 4 buf) (take 4 (hash (data_at len buf))))
    then bad
    else packet (without_zeros (slice 4 12 buf)) (data_at len buf) (drop (packet_size len) buf)

unfoldable pub front : (Bytes → Bytes) → Bytes → Front
front hash buf =
    if ltb (length buf) 24
    then waits
    else if not (bytes_eq (take 4 buf) magic)
    then bad
    else checked hash (le_value (slice 16 4 buf)) buf

-- `ModBitcoinConnectorClient`: its buffer, whether it is closed, and the rest of its state.
pub record Peer (S : Type 0) : Type 0 where
  pub in_buf : Bytes
  pub closed : Bool
  pub state : S

-- The slots by their names, `none` for a type that has none.
abbrev pub Slots : Type 0 → Type 0
Slots S = Bytes → Option (Bytes → S → S)

unfoldable pub invoke : {S : Type 0} → Option (Bytes → S → S) → Bytes → S → S
invoke none dat s = s
invoke (some slot) dat s = slot dat s

-- A round of the loop; `next` goes on.
unfoldable pub handle_front :
    {S : Type 0} → Slots S → (Peer S → Option (Peer S)) → Front → Peer S → Option (Peer S)
unfolding invoke
handle_front slots next waits p = some p
handle_front slots next bad p = some (record p { in_buf = []; closed = true })
handle_front slots next (packet type dat rest) p =
    next (record p { in_buf = rest; state = invoke (slots type) dat p.state })

-- The loop, on fuel; `none` when the fuel is used up.
unfoldable pub handle_packets :
    {S : Type 0} → (Bytes → Bytes) → Slots S → ℕ → Peer S → Option (Peer S)
unfolding handle_front
handle_packets hash slots zero p = none
handle_packets hash slots (suc fuel) p =
    handle_front slots (handle_packets hash slots fuel) (front hash p.in_buf) p

-- `handleBuffer`
unfoldable pub handle_buffer :
    {S : Type 0} → (Bytes → Bytes) → Slots S → ℕ → Bytes → Peer S → Option (Peer S)
handle_buffer hash slots fuel dat p =
    handle_packets hash slots fuel (record p { in_buf = p.in_buf ++ dat })
