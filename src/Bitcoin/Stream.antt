-- ===== src/Bitcoin/Stream.antt =====
-- mod/ext/bitcoin/BitcoinStream.cpp: the variable-length integers, strings and raw data of the
-- Bitcoin wire format, over a little-endian QDataStream. The address calls are in Bitcoin/NetAddr.
pub mod RoundTrip
use pinetd.Prelude.{
  ℕ, zero, suc, ◌+◌, ◌*◌, ◌/◌, ◌%◌, ◌^◌, ◌≤◌, ◌<◌, ◌≡◌, refl, ap, ◌∙◌, List, [], ◌∷◌, ◌++◌, Bool,
  arith, ltb, ◌==◌, if◌then◌else◌, length, take, drop, Bytes,
}
use pinetd.DataStream.{Reader, ◌>>=◌, ◌>>◌, pure, le_bytes, read_le, read_raw}

-- `writeInt`: a quint64 in 1, 3, 5 or 9 bytes.
unfoldable pub write_int : ℕ → Bytes
write_int i =
    if ltb i 253
    then le_bytes 1 i
    else if ltb i 0xffff
    then le_bytes 1 253 ++ le_bytes 2 i
    else if ltb i 0xffffffff
    then le_bytes 1 254 ++ le_bytes 4 i
    else le_bytes 1 255 ++ le_bytes 8 i

-- `writeData`
abbrev pub write_data : Bytes → Bytes
write_data bytes = bytes

-- `writeString`
unfoldable pub write_string : Bytes → Bytes
write_string string = write_int (length string) ++ write_data string

-- the `switch` of `readInt`
int_of_tag : ℕ → Reader ℕ
int_of_tag i =
    if i == 253
    then read_le 2
    else if i == 254
    then read_le 4
    else if i == 255
    then read_le 8
    else pure i

-- `readInt`
unfoldable pub read_int : Reader ℕ
unfolding int_of_tag
read_int = do i ← read_le 1; int_of_tag i

-- A number passed as a C++ `int`: modulo 2 ^ 32, and negative from 2 ^ 31 on. A negative length
-- makes an empty array and reads nothing.
unfoldable pub as_length : ℕ → ℕ
as_length n = if ltb (n % 2 ^ 32) (2 ^ 31) then n % 2 ^ 32 else 0

-- `readData`: what the stream has of the bytes asked for.
unfoldable pub read_data : ℕ → Reader Bytes
unfolding as_length
read_data len = read_raw (as_length len)

-- `readString`
unfoldable pub read_string : Reader Bytes
read_string = do len ← read_int; read_data len
