-- ===== src/Ps/System.antt =====
-- The daemon with its connections. The event loop of Qt runs one event at a time: a new connection,
-- bytes from a client, a datagram, bytes from a master, the end of a client, the timer, a reload.
use pinetd.Prelude.{ℕ, zero, suc, List, [], ◌∷◌, ◌++◌, Option, none, some, Bytes, map, put, find}
use pinetd.Prelude.Fault.{◌>>=◌}
use pinetd.Ps.Server.{
  Server, Master, Signal, push_packet, read_from_master, master_connected, connected,
}
use pinetd.Ps.Masters.{check_masters, reload}
use pinetd.Ps.Client.{Client, new_client, handle_buffer, destroy, channel_packet}

pub record System : Type 0 where
  pub server : Server
  pub clients : List Client

-- A daemon that has started: no channel, no master, no limit, no client.
unfoldable pub init : System
init = record {
  server = record { channel_refcount = []; masters = []; subscribe_limit = [] };
  clients = [];
}

-- `incomingTcp`: a new client that listens to the signal.
unfoldable pub incoming_tcp : System → System
incoming_tcp y = record y { clients = new_client ∷ y.clients }

-- The signal channelPacket calls the slot of every client.
unfoldable pub emit : Signal → List Client → List Client
emit sig xs = map (channel_packet sig) xs

unfoldable pub emit_option : Option Signal → List Client → List Client
unfolding emit
emit_option none xs = xs
emit_option (some sig) xs = emit sig xs

unfoldable pub emit_all : List Signal → List Client → List Client
unfolding emit
emit_all [] xs = xs
emit_all (sig ∷ sigs) xs = emit_all sigs (emit sig xs)

-- `incomingDatagram`
unfoldable pub incoming_datagram : Bytes → System → System
unfolding emit_option
incoming_datagram dat y = record y { clients = emit_option (push_packet y.server dat) y.clients }

-- The client at position n gets bytes; there may be none.
unfoldable pub feed : ℕ → Bytes → Server → List Client → Option (Server × List Client)
feed n t s [] = some (s, [])
feed zero t s (x ∷ xs) = do (s', x') ← handle_buffer t s x; some (s', x' ∷ xs)
feed (suc n) t s (x ∷ xs) = do (s', xs') ← feed n t s xs; some (s', x ∷ xs')

-- The client at position n is destroyed.
unfoldable pub lose : ℕ → Server → List Client → Option (Server × List Client)
lose n s [] = some (s, [])
lose zero s (x ∷ xs) = do s' ← destroy s x; some (s', xs)
lose (suc n) s (x ∷ xs) = do (s', xs') ← lose n s xs; some (s', x ∷ xs')

-- `readFromMaster`, where the sender is the socket of the key k and has received more bytes.
unfoldable pub read_entry : ℕ → Bytes → Bytes → System → Option (Option Master) → System
read_entry now k bytes y (some (some m)) =
    let (sigs, m') = read_from_master now y.server (record m { input = m.input ++ bytes }) in
    record {
      server = record y.server { masters = put k (some m') y.server.masters };
      clients = emit_all sigs y.clients;
    }
read_entry now k bytes y _ = y

unfoldable pub master_read : ℕ → Bytes → Bytes → System → System
unfolding read_entry
master_read now k bytes y = read_entry now k bytes y (find k y.server.masters)

-- `masterConnected`, where the sender is the socket of the key k.
unfoldable pub connect_entry : Bytes → System → Option (Option Master) → System
connect_entry k y (some (some m)) =
    let m' = master_connected y.server (record m { state = connected }) in
    record y { server = record y.server { masters = put k (some m') y.server.masters } }
connect_entry k y _ = y

unfoldable pub master_up : Bytes → System → System
unfolding connect_entry
master_up k y = connect_entry k y (find k y.server.masters)

pub data Event : Type 0 where
  connects : Event
  sends : ℕ → Bytes → Event
  datagram : Bytes → Event
  leaves : ℕ → Event
  timeout : ℕ → Event
  master_sends : ℕ → Bytes → Bytes → Event
  master_connects : Bytes → Event
  reloads : ℕ → List Bytes → List Bytes → Event

unfoldable pub step : Event → System → Option System
step connects y = some (incoming_tcp y)
step (sends n t) y = do
  (s, xs) ← feed n t y.server y.clients
  some (record { server = s; clients = xs })
step (datagram dat) y = some (incoming_datagram dat y)
step (leaves n) y = do
  (s, xs) ← lose n y.server y.clients
  some (record { server = s; clients = xs })
step (timeout now) y = some (record y { server = check_masters now y.server })
step (master_sends now k bytes) y = some (master_read now k bytes y)
step (master_connects k) y = some (master_up k y)
step (reloads now names limits) y = some (record y { server = reload now names limits y.server })

unfoldable pub run : List Event → System → Option System
run [] y = some y
run (e ∷ es) y = do y' ← step e y; run es y'
