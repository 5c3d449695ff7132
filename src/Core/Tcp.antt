-- ===== src/Core/Tcp.antt =====
-- mod/core/CoreTcp.cpp: a connection that comes in goes to the daemon behind the port.
use pinetd.Prelude.{ℕ, List, Option, none, some, Bytes}
use pinetd.Core.Port.{Port, deliver}

-- What becomes of a new socket: closed and deleted, or moved to the receiver, and the calls of
-- `incomingTcp` with the entry's name.
pub data Incoming : Type 0 where
  closed : Incoming
  moved : ℕ → List (ℕ × Bytes) → Incoming

unfoldable pub incoming_to : Option ℕ → Port → Incoming
incoming_to none p = closed
incoming_to (some r) p = moved r (deliver p.entry p)

-- `CoreTcp::incomingConnection`
unfoldable pub incoming_connection : Port → Incoming
unfolding incoming_to
incoming_connection p = incoming_to p.receiver p
