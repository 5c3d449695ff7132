-- ===== src/Ps/Server.antt =====
-- mod/daemon/ps/ModPS.cpp and ModPS.hpp: the subscription counts, the connections to the master
-- servers, and the packets that come in. The lock around the counts is not modelled: each call
-- runs whole. A write to a socket is recorded in `sent`.
use pinetd.Prelude.{
  ℕ, zero, suc, ◌+◌, ◌-◌, ◌*◌, ltb, leb, ◌==◌, if◌then◌else◌, not, List, [], ◌∷◌, ◌++◌, Bool, true,
  false, Option, none, some, Bytes, length, take, drop, slice, get_or, bit_and, Dict, find, has_key,
  put, remove, has, map,
}
use pinetd.Prelude.Fault.{◌>>=◌}

-- QAbstractSocket::SocketState
pub data SocketState : Type 0 where
  unconnected host_lookup connecting connected bound listening closing : SocketState

-- A QTcpSocket to a master: its state, its "stamp" property, what was written to it, what can be
-- read from it, and the host and port of its last connectToHost.
pub record Master : Type 0 where
  pub state : SocketState
  pub stamp : ℕ
  pub sent : List Bytes
  pub input : Bytes
  pub target : Option (Bytes × Bytes)

-- `ModPS`
pub record Server : Type 0 where
  pub channel_refcount : Dict ℕ
  pub masters : Dict (Option Master)
  pub subscribe_limit : List Bytes

-- The signal channelPacket: the packet, its channel and its type.
pub record Signal : Type 0 where
  pub packet : Bytes
  pub channel : Bytes
  pub type : ℕ

-- `(((unsigned char)dat[0] << 8) | (unsigned char)dat[1]) + 2`; the two bytes do not overlap. A
-- read past the end of an array is 0, as its terminator.
unfoldable pub packet_length : Bytes → ℕ
packet_length dat = get_or dat 0 0 * 256 + get_or dat 1 0 + 2

-- `type & 0x80`
abbrev pub is_control : ℕ → Bool
is_control type = not (bit_and type 0x80 == 0)

-- `QTcpSocket::write`, which fails on a socket that is not connected to anything.
unfoldable pub write_state : SocketState → Bytes → List Bytes → List Bytes
write_state unconnected packet sent = sent
write_state _ packet sent = sent ++ (packet ∷ [])

unfoldable pub write_master : Bytes → Master → Master
unfolding write_state
write_master packet m = record m { sent = write_state m.state packet m.sent }

-- The loops of `doSubscribe` and `doUnsubscribe`: `i.value()->write(packet)`.
unfoldable pub write_all : Bytes → Dict (Option Master) → Option (Dict (Option Master))
unfolding write_master
write_all packet [] = some []
write_all packet ((k, none) ∷ ms) = none
write_all packet ((k, some m) ∷ ms) = do
  ms' ← write_all packet ms
  some ((k, some (write_master packet m)) ∷ ms')

abbrev pub subscribe_packet : Bytes → Bytes
subscribe_packet channel = 0 ∷ 17 ∷ 0x81 ∷ channel

abbrev pub unsubscribe_packet : Bytes → Bytes
unsubscribe_packet channel = 0 ∷ 17 ∷ 0x82 ∷ channel

-- `doSubscribe`
unfoldable pub do_subscribe : Server → Bytes → Option Server
do_subscribe s channel = do
  ms ← write_all (subscribe_packet channel) s.masters
  some (record s { masters = ms })

-- `doUnsubscribe`
unfoldable pub do_unsubscribe : Server → Bytes → Option Server
do_unsubscribe s channel = do
  ms ← write_all (unsubscribe_packet channel) s.masters
  some (record s { masters = ms })

unfoldable pub is_empty_list : {A : Type 0} → List A → Bool
is_empty_list [] = true
is_empty_list (x ∷ xs) = false

-- `canSubscribe`
unfoldable pub can_subscribe : Server → Bytes → Bool
unfolding is_empty_list
can_subscribe s channel =
    if is_empty_list s.subscribe_limit
    then true
    else if has channel s.subscribe_limit
    then true
    else false

-- `value(channel)` of an int map: 0 where the key is missing.
unfoldable pub refcount : Server → Bytes → ℕ
refcount s channel = elim (find channel s.channel_refcount) [ none ↦ 0 | some n ↦ n ]

-- `channelAddRef`
unfoldable pub channel_add_ref : Server → Bytes → Option Server
channel_add_ref s channel =
    if not (has_key channel s.channel_refcount)
    then do_subscribe (record s { channel_refcount = put channel 1 s.channel_refcount }) channel
    else some
        (record s { channel_refcount = put channel (refcount s channel + 1) s.channel_refcount })

-- `channelDelRef`
unfoldable pub channel_del_ref : Server → Bytes → Option Server
channel_del_ref s channel =
    if not (has_key channel s.channel_refcount)
    then none
    else if leb (refcount s channel) 1
    then do_unsubscribe (record s { channel_refcount = remove channel s.channel_refcount }) channel
    else some
        (record s { channel_refcount = put channel (refcount s channel - 1) s.channel_refcount })

-- `pushPacket` on fuel for its one recursive call: the signal that it emits, if any.
unfoldable pub push_packet_fuel : ℕ → Server → Bytes → Option Signal
push_packet_fuel zero s dat = none
push_packet_fuel (suc fuel) s dat =
    let again = push_packet_fuel fuel s (take (packet_length dat) dat) in
    let type = get_or dat 2 0 in
    let channel = slice 3 16 dat in
    if ltb (packet_length dat) 17
    then none
    else if ltb (length dat) (packet_length dat)
    then none
    else if ltb (packet_length dat) (length dat)
    then again
    else if type == 0x80
    then none
    else if is_control type
    then none
    else if not (has_key channel s.channel_refcount)
    then none
    else some (record { packet = dat; channel = channel; type = type })

unfoldable pub push_packet : Server → Bytes → Option Signal
push_packet s dat = push_packet_fuel 2 s dat

-- `readFromMaster`: the loop over the packets that are complete, on fuel for the bytes. It returns
-- the signals in order, and what is left to be read.
unfoldable pub read_packets : ℕ → Server → Bytes → List Signal × Bytes
read_packets zero s input = ([], input)
read_packets (suc fuel) s input =
    let (signals, rest) = read_packets fuel s (drop (packet_length input) input) in
    let more : List Signal = elim (push_packet s (take (packet_length input) input)) [
      | none ↦ signals
      | some x ↦ x ∷ signals
    ] in
    if ltb (length input) 2
    then ([], input)
    else if ltb (length input) (packet_length input)
    then ([], input)
    else (more, rest)

unfoldable pub read_from_master : ℕ → Server → Master → List Signal × Master
unfolding read_packets
read_from_master now s m =
    let (signals, rest) = read_packets (length m.input) s m.input in
    (signals, record m { stamp = now; input = rest })

-- `masterConnected`: a subscription for every counted channel.
unfoldable pub master_connected : Server → Master → Master
master_connected s m = record m {
  sent = m.sent ++ map (λ p. subscribe_packet p.0) s.channel_refcount;
}
