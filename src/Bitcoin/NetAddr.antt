-- ===== src/Bitcoin/NetAddr.antt =====
-- mod/ext/bitcoin/BitcoinNetAddr.cpp: a peer's address, port and services, and its 26 bytes on the
-- wire; with them the two address calls of BitcoinStream.cpp. QHostAddress is the data type below:
-- no address, the dual-stack "any" address (whose protocol is neither IPv4 nor IPv6), a 32-bit IPv4
-- address, or the 16 bytes of an IPv6 address.
pub mod Wire
use pinetd.Prelude.{
  ℕ, zero, suc, ◌==◌, not, List, [], ◌∷◌, ◌++◌, Bool, true, false, if◌then◌else◌, length, slice,
  replicate, Bytes, bytes_eq,
}
use pinetd.DataStream.{Reader, ◌>>=◌, ◌>>◌, pure, le_bytes, be_bytes, read_le, read_be, skip_raw}
use pinetd.Bitcoin.Stream.{write_data, read_data}

pub data HostAddress : Type 0 where
  null any : HostAddress
  ipv4 : ℕ → HostAddress
  ipv6 : Bytes → HostAddress

-- `BitcoinNetAddr`
pub record NetAddr : Type 0 where
  pub is_valid : Bool
  pub addr : HostAddress
  pub port : ℕ
  pub services : ℕ
  pub bin : Bytes

-- `BitcoinNetAddr::BitcoinNetAddr()`, and `null()`, which returns one.
unfoldable pub null_addr : NetAddr
null_addr = record { is_valid = false; addr = null; port = 0; services = 0; bin = [] }

-- The prefix of an IPv4 address in the 16 bytes of the wire format.
abbrev pub mapped : Bytes
mapped = 0 ∷ 0 ∷ 0 ∷ 0 ∷ 0 ∷ 0 ∷ 0 ∷ 0 ∷ 0 ∷ 0 ∷ 0xff ∷ 0xff ∷ []

-- `for(i = 0; i < 16; i++) bin_r >> ipv6[i]`
unfoldable pub read_octets : ℕ → Reader Bytes
read_octets zero s = ([], s)
read_octets (suc n) s =
    let (b, s') = read_le 1 s in let (bs, s'') = read_octets n s' in (b ∷ bs, s'')

-- The fields in the order in which `decode_bin` reads them.
unfoldable pub read_fields : Bool → Reader (ℕ × HostAddress × ℕ)
read_fields true = do
  services ← read_le 8
  skip_raw 12
  a ← read_le 4
  port ← read_be 2
  pure (services, ipv4 a, port)
read_fields false = do
  services ← read_le 8
  a ← read_octets 16
  port ← read_be 2
  pure (services, ipv6 a, port)

-- `decode_bin`. (The IPv6 loop reads from byte 8 on: `mid` does not move the stream.)
unfoldable pub decode_bin : NetAddr → NetAddr
unfolding read_fields
decode_bin a =
    if not (length a.bin == 26)
    then record a { is_valid = false }
    else let ((services, addr, port), rest) =
        read_fields (bytes_eq (slice 8 12 a.bin) mapped) a.bin in
      record a { is_valid = true; addr = addr; port = port; services = services }

-- What `decode_hp` writes between the services and the port; none for an address that it refuses.
unfoldable pub host_bytes : HostAddress → Bytes
host_bytes null = []
host_bytes any = []
host_bytes (ipv4 a) =
    be_bytes 4 0x00000000 ++ (be_bytes 4 0x00000000 ++ (be_bytes 4 0x0000ffff ++ be_bytes 4 a))
host_bytes (ipv6 bs) = bs

unfoldable pub is_null : HostAddress → Bool
is_null null = true
is_null _ = false

-- `decode_hp`. An address that is not null has a protocol that is not UnknownNetworkLayerProtocol.
unfoldable pub decode_hp : NetAddr → NetAddr
unfolding host_bytes is_null
decode_hp a = if is_null a.addr then record a { is_valid = false; bin = [] } else record a {
  is_valid = true;
  bin = le_bytes 8 a.services ++ (host_bytes a.addr ++ be_bytes 2 a.port);
}

-- `BitcoinNetAddr::BitcoinNetAddr(const QHostAddress&, quint16, quint64)`
unfoldable pub of_host : HostAddress → ℕ → ℕ → NetAddr
unfolding decode_hp
of_host addr port services =
    decode_hp (record { is_valid = false; addr = addr; port = port; services = services; bin = [] })

-- `BitcoinNetAddr::BitcoinNetAddr(const QByteArray&)`; the port and the services start
-- uninitialised, as the first two arguments.
unfoldable pub of_bin : ℕ → ℕ → Bytes → NetAddr
unfolding decode_bin
of_bin port services bin =
    decode_bin
      (record { is_valid = false; addr = null; port = port; services = services; bin = bin })

-- `getBin`
unfoldable pub get_bin : NetAddr → Bytes
get_bin a = if not a.is_valid then replicate 26 0 else a.bin

-- `getKey`. Qt's printing of an address and of a number are the parameters.
unfoldable pub get_key : (HostAddress → Bytes) → (ℕ → Bytes) → NetAddr → Bytes
get_key to_string number a =
    if not a.is_valid then [] else to_string a.addr ++ (0x2f ∷ number a.port)

-- `BitcoinStream::writeAddress`
unfoldable pub write_address : NetAddr → Bytes
write_address a = write_data (get_bin a)

-- `BitcoinStream::readAddress`
unfoldable pub read_address : ℕ → ℕ → Reader NetAddr
read_address port services = do bin ← read_data 26; pure (of_bin port services bin)
