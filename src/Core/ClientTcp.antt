-- ===== src/Core/ClientTcp.antt =====
-- mod/core/ClientTcp.cpp: a TCP connection with its own write buffer. What the socket answers is
-- an argument of each call: how many bytes it took, or `none` for an error (a negative answer).
pub mod Stream
use pinetd.Prelude.{
  ℕ, ◌*◌, ltb, ◌==◌, if◌then◌else◌, List, [], ◌∷◌, ◌++◌, Bool, true, false, Option, none, some,
  Bytes, length, take, drop, min,
}

-- `ClientTcp`, with the bytes that its socket has accepted so far and those that wait to be read.
-- `closed` is set by `sock->close(); deleteLater()`.
pub record ClientTcp : Type 0 where
  pub write_buf : Bytes
  pub sent : Bytes
  pub input : Bytes
  pub closed : Bool

unfoldable pub is_empty : Bytes → Bool
is_empty [] = true
is_empty (b ∷ bs) = false

unfoldable pub close : ClientTcp → ClientTcp
close c = record c { closed = true }

-- `write` while the buffer is empty: straight to the socket.
unfoldable pub write_through : Option ℕ → Bytes → ClientTcp → ClientTcp
unfolding close
write_through none dat c = close c
write_through (some s) dat c =
    if s == length dat
    then record c { sent = c.sent ++ dat }
    else record c { sent = c.sent ++ take s dat; write_buf = c.write_buf ++ drop s dat }

-- `write` while bytes wait: behind them, up to 1 MB in all.
unfoldable pub write_behind : Bytes → ClientTcp → ClientTcp
unfolding close
write_behind dat c =
    if ltb (1024 * 1024) (length (c.write_buf ++ dat))
    then close (record c { write_buf = [] })
    else record c { write_buf = c.write_buf ++ dat }

-- `ClientTcp::write`
unfoldable pub write : Option ℕ → Bytes → ClientTcp → ClientTcp
write answer dat c = if is_empty c.write_buf then write_through answer dat c else write_behind dat c

unfoldable pub flush_some : Option ℕ → ClientTcp → ClientTcp
unfolding close
flush_some none c = close c
flush_some (some s) c = record c {
  sent = c.sent ++ take s c.write_buf;
  write_buf = drop s c.write_buf;
}

-- `ClientTcp::flush`, which `bytesWritten` calls
unfoldable pub flush : Option ℕ → ClientTcp → ClientTcp
flush answer c = if is_empty c.write_buf then c else flush_some answer c

abbrev pub read_limit : ℕ
read_limit = 10 * 1024 * 1024

-- `ClientTcp::doRead`: the connection, and the bytes that `handleBuffer` is given, if it is called.
unfoldable pub do_read : Option ℕ → ClientTcp → ClientTcp × Option Bytes
unfolding close
do_read none c = (close c, none)
do_read (some n) c =
    let to_read = min (length c.input) read_limit in
    let got = min n to_read in
    if got == 0 then (c, none) else (record c { input = drop got c.input }, some (take got c.input))

-- `socketDisconnected`
unfoldable pub socket_disconnected : ClientTcp → ClientTcp
unfolding close
socket_disconnected c = close c
