-- ===== src/Core/Udg.antt =====
-- mod/core/CoreUdg.cpp and QUnixDatagramServer.cpp: datagrams from a Unix socket.
use pinetd.Prelude.{
  ℕ, ◌==◌, ltb, if◌then◌else◌, not, List, [], ◌∷◌, Bool, true, false, Option, none, some, Bytes,
  take,
}
use pinetd.Core.Port
use pinetd.Core.Port.{Port}

-- `CoreUdg::setTarget`, and `targetDestroyed` with it: the text of CoreTcp.
unfoldable pub set_target : Option ℕ → Bytes → Port → Port
set_target target entry p = Port.set_target target entry p

unfoldable pub target_destroyed : ℕ → Port → Port
target_destroyed o p = Port.target_destroyed o p

-- `CoreUdg::message`
unfoldable pub message : Bytes → Port → List (ℕ × Bytes)
message msg p = Port.deliver msg p

-- `QUnixDatagramServer::QUnixDatagramServer`: the descriptor that it keeps (`none` is -1), from the
-- answers of socket() and of bind().
unfoldable pub new_server : Option ℕ → Bool → Option ℕ
new_server none bound = none
new_server (some sock) true = some sock
new_server (some sock) false = none

-- `QUnixDatagramServer::isValid`
unfoldable pub is_valid : Option ℕ → Bool
is_valid none = false
is_valid (some sock) = ltb 0 sock

-- What `recv` gives: an error, or bytes, at most 65535.
unfoldable pub received : Option Bytes → Option Bytes
received none = none
received (some []) = none
received (some (b ∷ bs)) = some (take 65535 (b ∷ bs))

-- `QUnixDatagramServer::activated` on a descriptor: the message that it emits, if any.
unfoldable pub activated : Option ℕ → ℕ → Option Bytes → Option Bytes
unfolding received
activated none s answer = none
activated (some sock) s answer = if not (s == sock) then none else received answer
