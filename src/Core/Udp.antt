-- ===== src/Core/Udp.antt =====
-- mod/core/CoreUdp.cpp: datagrams go to the daemon behind the port, one call for each.
use pinetd.Prelude.{ℕ, List, [], ◌∷◌, ◌++◌, Option, none, some, Bytes}
use pinetd.Core.Port
use pinetd.Core.Port.{Port}

-- `CoreUdp::setTarget`, and `targetDestroyed` with it: the text of CoreTcp.
unfoldable pub set_target : Option ℕ → Bytes → Port → Port
set_target target entry p = Port.set_target target entry p

unfoldable pub target_destroyed : ℕ → Port → Port
target_destroyed o p = Port.target_destroyed o p

-- `data.resize(len)` after `readDatagram`: what was read, and nothing after an error (-1).
unfoldable pub datagram : Option Bytes → Bytes
datagram none = []
datagram (some bytes) = bytes

-- `CoreUdp::receiveDatagram`, with what `readDatagram` gives for each pending datagram.
unfoldable pub receive_datagram : List (Option Bytes) → Port → List (ℕ × Bytes)
unfolding datagram
receive_datagram [] p = []
receive_datagram (d ∷ ds) p = Port.deliver (datagram d) p ++ receive_datagram ds p
