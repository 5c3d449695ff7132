-- ===== src/Ps/Client.antt =====
-- mod/daemon/ps/ModPSClient.cpp and ModPSClient.hpp: one connection. `write` is recorded in
-- `written` (its buffering is Core/ClientTcp), and `sock->close(); deleteLater()` sets `closed`.
use pinetd.Prelude.{
  ℕ, zero, suc, ◌*◌, ltb, ◌==◌, if◌then◌else◌, not, List, [], ◌∷◌, ◌++◌, Bool, true, false, Option,
  some, Bytes, length, take, drop, slice, get_or, has, add, erase,
}
use pinetd.Prelude.Fault.{◌>>=◌}
use pinetd.Ps.Server.{
  Server, Signal, packet_length, is_control, can_subscribe, channel_add_ref, channel_del_ref,
}

-- `ModPSClient`
pub record Client : Type 0 where
  pub buf_in : Bytes
  pub channels : List Bytes
  pub closed : Bool
  pub written : List Bytes

-- `ModPSClient::ModPSClient`
unfoldable pub new_client : Client
new_client = record { buf_in = []; channels = []; closed = false; written = [] }

unfoldable pub write : Bytes → Client → Client
write dat x = record x { written = x.written ++ (dat ∷ []) }

unfoldable pub close : Client → Client
close x = record x { closed = true }

-- The slot `channelPacket`.
unfoldable pub channel_packet : Signal → Client → Client
unfolding write
channel_packet sig x = if not (has sig.channel x.channels) then x else write sig.packet x

-- `handleSubscribe`
unfoldable pub handle_subscribe : Bytes → Server → Client → Option (Server × Client)
unfolding close
handle_subscribe channel s x =
    if has channel x.channels
    then some (s, x)
    else if not (can_subscribe s channel)
    then some (s, close x)
    else do
      s' ← channel_add_ref s channel
      some (s', record x { channels = add channel x.channels })

-- `handleUnsubscribe`
unfoldable pub handle_unsubscribe : Bytes → Server → Client → Option (Server × Client)
handle_unsubscribe channel s x = if not (has channel x.channels) then some (s, x) else do
  s' ← channel_del_ref s channel
  some (s', record x { channels = erase channel x.channels })

-- The `switch` of `handlePacket`.
unfoldable pub handle_type : ℕ → Bytes → Server → Client → Option (Server × Client)
unfolding write
handle_type type packet s x =
    if type == 0x80
    then some (s, write packet x)
    else if type == 0x81
    then handle_subscribe (slice 3 16 packet) s x
    else if type == 0x82
    then handle_unsubscribe (slice 3 16 packet) s x
    else some (s, x)

-- `handlePacket`; `packet[2]` of a packet of two bytes is the array's terminator, 0.
unfoldable pub handle_packet : Bytes → Server → Client → Option (Server × Client)
unfolding close
handle_packet packet s x =
    if not (is_control (get_or packet 2 0))
    then some (s, close x)
    else handle_type (get_or packet 2 0) packet s x

-- The loop of `handleBuffer`, on fuel. A packet is two bytes at least.
unfoldable pub handle_packets : ℕ → Server → Client → Option (Server × Client)
handle_packets zero s x = some (s, x)
handle_packets (suc fuel) s x =
    let len = packet_length x.buf_in in
    let next = do
      (s', x') ← handle_packet (take len x.buf_in) s (record x { buf_in = drop len x.buf_in })
      handle_packets fuel s' x'
    in if ltb (length x.buf_in) 2
      then some (s, x)
      else if ltb (length x.buf_in) len
      then some (s, x)
      else next

-- What `handleBuffer` does before its loop: the new bytes, and the limit of 100 kB.
unfoldable pub buffer : Bytes → Client → Client
unfolding close
buffer t x =
    if ltb (100 * 1024) (length (x.buf_in ++ t))
    then close (record x { buf_in = [] })
    else record x { buf_in = x.buf_in ++ t }

-- `handleBuffer`
unfoldable pub handle_buffer : Bytes → Server → Client → Option (Server × Client)
handle_buffer t s x = handle_packets (length (buffer t x).buf_in) s (buffer t x)

-- The loop of `ModPSClient::~ModPSClient`.
unfoldable pub release_channels : List Bytes → Server → Option Server
release_channels [] s = some s
release_channels (c ∷ cs) s = do s' ← channel_del_ref s c; release_channels cs s'

unfoldable pub destroy : Server → Client → Option Server
destroy s x = release_channels x.channels s
