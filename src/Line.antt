-- ===== src/Line.antt =====
-- mod/ext/tcpline/ClientTcpLine.cpp: a connection that is read line by line, and the daemons on it
-- (mod/daemon/broadcast).
pub mod Lines
pub mod Broadcast
use pinetd.Prelude.{
  ℕ, zero, suc, ◌+◌, ltb, ◌==◌, ◌||◌, if◌then◌else◌, List, [], ◌∷◌, ◌++◌, Bool, true, false, Option,
  none, some, Bytes, length, take, drop,
}
use mathlib.Core.List.{reverse}

-- `indexOf('\n')`; `none` is -1.
unfoldable pub index_of_newline : Bytes → Option ℕ
index_of_newline [] = none
index_of_newline (b ∷ bs) =
    let later : Option ℕ = elim (index_of_newline bs) [ none ↦ none | some p ↦ some (p + 1) ] in
    if b == 10 then some 0 else later

-- The white space that `trimmed` removes: tab, LF, VT, FF, CR and space.
abbrev pub is_space : ℕ → Bool
is_space b = (b == 9 || b == 10) || ((b == 11 || b == 12) || (b == 13 || b == 32))

unfoldable pub skip_space : Bytes → Bytes
skip_space [] = []
skip_space (b ∷ bs) = if is_space b then skip_space bs else b ∷ bs

-- `trimmed()`
unfoldable pub trimmed : Bytes → Bytes
unfolding skip_space
trimmed bs = reverse (skip_space (reverse (skip_space bs)))

-- `ClientTcpLine`, with the lines that `handleLine` was given.
pub record ClientTcpLine : Type 0 where
  pub read_buffer : Bytes
  pub lines : List Bytes
  pub closed : Bool

abbrev pub line_limit : ℕ
line_limit = 4096

-- `read_buffer.clear(); sock->close()`
unfoldable pub too_long : ClientTcpLine → ClientTcpLine
too_long c = record c { read_buffer = []; closed = true }

-- `left(p)`, `remove(0, p+1)` and the call of `handleLine`.
unfoldable pub take_line : ℕ → ClientTcpLine → ClientTcpLine
unfolding trimmed
take_line p c = record c {
  read_buffer = drop (p + 1) c.read_buffer;
  lines = c.lines ++ (trimmed (take p c.read_buffer) ∷ []);
}

-- A round of the loop of `handleBuffer`, from the position of a line feed; `next` goes on.
unfoldable pub handle_found :
    (ClientTcpLine → ClientTcpLine) → Option ℕ → ClientTcpLine → ClientTcpLine
unfolding too_long take_line
handle_found next none c = if ltb line_limit (length c.read_buffer) then too_long c else c
handle_found next (some p) c = if ltb line_limit p then too_long c else next (take_line p c)

-- The loop, on fuel: every round but the last takes a byte at least.
unfoldable pub handle_lines : ℕ → ClientTcpLine → ClientTcpLine
unfolding handle_found
handle_lines zero c = c
handle_lines (suc fuel) c = handle_found (handle_lines fuel) (index_of_newline c.read_buffer) c

-- `ClientTcpLine::handleBuffer`
unfoldable pub handle_buffer : Bytes → ClientTcpLine → ClientTcpLine
handle_buffer buf c =
    handle_lines (suc (length (c.read_buffer ++ buf)))
      (record c { read_buffer = c.read_buffer ++ buf })
