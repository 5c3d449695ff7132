-- ===== src/RConnect.antt =====
-- mod/daemon/rconnect: clients send frames to one another through the server.
-- A frame is 16 bytes of target, a length in two or four bytes, and the data.
pub mod Frames
pub mod Forward
use pinetd.Prelude.{
  ℕ, zero, suc, ◌+◌, ◌-◌, ◌*◌, ◌^◌, ltb, if◌then◌else◌, List, [], ◌∷◌, ◌++◌, Option, none, some,
  Bytes, length, take, drop, slice, Dict, find, put, remove,
}
use pinetd.DataStream.{be_value}

-- `ModRConnectClient`, with what was written to it, one entry for each `write`.
pub record RConnectClient : Type 0 where
  pub raw_id : Bytes
  pub buf_in : Bytes
  pub sent : List Bytes

-- The static map `rconnect`: from a client's raw id to the client.
abbrev pub Table : Type 0
Table = Dict RConnectClient

-- The constructor, for a new id of 16 bytes: the client is registered and told its id.
unfoldable pub new_client : Bytes → Table → Table
new_client raw_id t = put raw_id (record { raw_id = raw_id; buf_in = []; sent = raw_id ∷ [] }) t

-- The destructor.
unfoldable pub destroy : Bytes → Table → Table
destroy raw_id t = remove raw_id t

-- `r >> len_min` at a place: a quint16 in BigEndian.
unfoldable pub length_at : ℕ → Bytes → ℕ
length_at i buf = be_value (slice i 2 buf)

-- The lengths of the header and of the data, if the header is there. The mask and the shift are on
-- separate bits: a first length with the top bit set (0x8000) is the upper part of a long one.
unfoldable pub header : Bytes → Option (ℕ × ℕ)
unfolding length_at
header buf =
    if ltb (length buf) 18
    then none
    else if ltb (length_at 16 buf) 0x8000
    then some (18, length_at 16 buf)
    else if ltb (length buf) 20
    then none
    else some (20, (length_at 16 buf - 0x8000) * 2 ^ 16 + length_at 18 buf)

-- The length of the frame at the front, if all of it is there.
unfoldable pub complete : Bytes → Option (ℕ × ℕ) → Option ℕ
complete buf none = none
complete buf (some (header_len, len)) =
    if ltb (length buf) (len + header_len) then none else some (len + header_len)

unfoldable pub frame_length : Bytes → Option ℕ
frame_length buf = complete buf (header buf)

-- `tgt_c->write(...)` on the client of the table.
unfoldable pub write_to : Bytes → Bytes → RConnectClient → Table → Table
write_to tgt dat c t = put tgt (record c { sent = c.sent ++ (dat ∷ []) }) t

-- A complete frame, n bytes long: it is passed on and the loop goes on, or, when nobody has the
-- target's id, it is skipped and the loop ends.
unfoldable pub forward_to :
    (Table → Bytes → Table × Bytes)
    → Bytes
    → Table
    → Bytes
    → ℕ
    → Option RConnectClient
    → Table × Bytes
unfolding write_to
forward_to next raw_id t buf n none = (t, drop n buf)
forward_to next raw_id t buf n (some c) =
    next (write_to (take 16 buf) (raw_id ++ drop 16 (take n buf)) c t) (drop n buf)

unfoldable pub forward_frame :
    (Table → Bytes → Table × Bytes) → Bytes → Table → Bytes → Option ℕ → Table × Bytes
forward_frame next raw_id t buf none = (t, buf)
forward_frame next raw_id t buf (some n) = forward_to next raw_id t buf n (find (take 16 buf) t)

-- The loop of `handleBuffer`, on fuel: a frame is 18 bytes at least.
unfoldable pub forward : ℕ → Bytes → Table → Bytes → Table × Bytes
unfolding forward_frame
forward zero raw_id t buf = (t, buf)
forward (suc fuel) raw_id t buf =
    forward_frame (forward fuel raw_id) raw_id t buf (frame_length buf)

unfoldable pub keep : Bytes → Bytes → Option RConnectClient → Table → Table
keep raw_id rest none t = t
keep raw_id rest (some c) t = put raw_id (record c { buf_in = rest }) t

unfoldable pub receive : Bytes → Option RConnectClient → Table → Table
unfolding keep
receive buf none t = t
receive buf (some c) t =
    let (t', rest) = forward (length (c.buf_in ++ buf)) c.raw_id t (c.buf_in ++ buf) in
    keep c.raw_id rest (find c.raw_id t') t'

-- `handleBuffer` of the client of an id.
unfoldable pub handle_buffer : Bytes → Bytes → Table → Table
unfolding receive
handle_buffer buf raw_id t = receive buf (find raw_id t) t
