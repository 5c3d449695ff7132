-- ===== src/Bitcoin/NetAddr/Wire.antt =====
-- BitcoinNetAddr: what becomes of an address that is written to the wire and read back.
use pinetd.Prelude.{
  ℕ, zero, suc, ◌^◌, ◌<◌, ◌≡◌, ◌≢◌, refl, ap, ◌∙◌, replicate, [], ◌∷◌, ◌++◌, Bool, true, false,
  length, Bytes, arith, append_assoc, All, IsByte, bytes_eq, bytes_eq_refl, ne-bytes_eq, take,
  slice, drop-append, take-append_le, length-append,
}
use pinetd.DataStream.{
  le_bytes, le_value, be_bytes, read_le, read_le-le_bytes, read_le-append, read_be_last,
  skip_raw-append, length-le_bytes, length-be_bytes,
}
use pinetd.Bitcoin.NetAddr.{
  HostAddress, NetAddr, null, any, ipv4, ipv6, mapped, read_octets, read_fields, of_host, of_bin,
  get_bin, write_address,
}

-- One byte is read as itself.
read_octet : (b : ℕ) (s : Bytes) → b < 256 → read_le 1 (b ∷ s) ≡ (b, s)
unfolding read_le le_value
read_octet b s h = ground arith

read_octets-append :
    (n : ℕ) (bs rest : Bytes)
    → All IsByte bs
    → length bs ≡ n
    → read_octets n (bs ++ rest) ≡ (bs, rest)
unfolding read_octets
read_octets-append zero [] rest h e = refl
read_octets-append zero (b ∷ bs) rest h e = absurd (omega arith)
read_octets-append (suc n) [] rest h e = absurd (omega arith)
read_octets-append (suc n) (b ∷ bs) rest h e =
    rw (read_octet b (bs ++ rest) h.0, read_octets-append n bs rest h.1 (omega arith))

-- The 26 bytes of an address whose middle part is `host`.
abbrev pub wire : ℕ → Bytes → ℕ → Bytes
wire services host port = le_bytes 8 services ++ (host ++ be_bytes 2 port)

length-wire :
    (services : ℕ) (host : Bytes) (port : ℕ)
    → length host ≡ 16
    → length (wire services host port) ≡ 26
length-wire services host port h = omega (
  arith,
  length-append (le_bytes 8 services) (host ++ be_bytes 2 port),
  length-append host (be_bytes 2 port),
  length-le_bytes 8 services,
  length-be_bytes 2 port,
)

slice-wire :
    (services : ℕ) (host : Bytes) (port : ℕ)
    → length host ≡ 16
    → slice 8 12 (wire services host port) ≡ take 12 host
slice-wire services host port h =
    rw (drop-append 8 (le_bytes 8 services) (host ++ be_bytes 2 port) (length-le_bytes 8 services))
      (take-append_le 12 host (be_bytes 2 port) (omega arith))

-- `decode_bin` on 26 bytes stores what the reader of the fields returns.
decoded :
    (port services : ℕ) (bin : Bytes) (is_mapped : Bool) (services' : ℕ) (addr : HostAddress)
    (port' : ℕ) (rest : Bytes)
    → length bin ≡ 26
    → bytes_eq (slice 8 12 bin) mapped ≡ is_mapped
    → read_fields is_mapped bin ≡ ((services', addr, port'), rest)
    → of_bin port services bin
      ≡ record { is_valid = true; addr = addr; port = port'; services = services'; bin = bin }
unfolding of_bin
decoded port services bin is_mapped services' addr port' rest l m r = rw (m, r) (ground arith)

read_mapped :
    (a port services : ℕ)
    → port < 2 ^ 16
    → services < 2 ^ 64
    → read_fields true (wire services (mapped ++ be_bytes 4 a) port)
      ≡ ((services, ipv4 (le_value (be_bytes 4 a)), port), [])
unfolding read_fields
read_mapped a port services hp hs = simp (
  append_assoc,
  read_le-le_bytes 8 services (mapped ++ (be_bytes 4 a ++ be_bytes 2 port)) hs,
  skip_raw-append 12 mapped (be_bytes 4 a ++ be_bytes 2 port) refl,
  read_le-append 4 (be_bytes 4 a) (be_bytes 2 port) (length-be_bytes 4 a),
  read_be_last 2 port hp,
)

read_plain :
    (bs : Bytes) (port services : ℕ)
    → All IsByte bs
    → length bs ≡ 16
    → port < 2 ^ 16
    → services < 2 ^ 64
    → read_fields false (wire services bs port) ≡ ((services, ipv6 bs, port), [])
unfolding read_fields
read_plain bs port services hb hl hp hs = simp (
  read_le-le_bytes 8 services (bs ++ be_bytes 2 port) hs,
  read_octets-append 16 bs (be_bytes 2 port) hb hl,
  read_be_last 2 port hp,
)

-- An IPv4 address comes back with its four bytes in the opposite order, since `decode_hp` writes it
-- in BigEndian and `decode_bin` reads it in LittleEndian; port and services come back unchanged.
pub of_bin-get_bin_ipv4 :
    (a port services junk junk' : ℕ)
    → port < 2 ^ 16
    → services < 2 ^ 64
    → of_bin junk junk' (get_bin (of_host (ipv4 a) port services))
      ≡ record (of_host (ipv4 a) port services) { addr = ipv4 (le_value (be_bytes 4 a)) }
unfolding get_bin of_host be_bytes le_bytes
of_bin-get_bin_ipv4 a port services junk junk' hp hs =
    let host = mapped ++ be_bytes 4 a in
    let size : length host ≡ 16 = omega (arith, length-be_bytes 4 a) in
    decoded junk junk' (wire services host port) true services (ipv4 (le_value (be_bytes 4 a))) port
      [] (length-wire services host port size)
      (rw (slice-wire services host port size) (bytes_eq_refl mapped))
      (read_mapped a port services hp hs)

-- An IPv6 address that does not start with the prefix of IPv4 comes back whole.
pub of_bin-get_bin_ipv6 :
    (bs : Bytes) (port services junk junk' : ℕ)
    → All IsByte bs
    → length bs ≡ 16
    → take 12 bs ≢ mapped
    → port < 2 ^ 16
    → services < 2 ^ 64
    → of_bin junk junk' (get_bin (of_host (ipv6 bs) port services))
      ≡ of_host (ipv6 bs) port services
unfolding get_bin of_host
of_bin-get_bin_ipv6 bs port services junk junk' hb hl hm hp hs =
    decoded junk junk' (wire services bs port) false services (ipv6 bs) port []
      (length-wire services bs port hl)
      (rw (slice-wire services bs port hl) (ne-bytes_eq (take 12 bs) mapped hm))
      (read_plain bs port services hb hl hp hs)

-- The 16 bytes of an address, and none for the dual-stack "any" address.
abbrev pub host_wire : HostAddress → Bytes
host_wire null = []
host_wire any = []
host_wire (ipv4 a) = mapped ++ be_bytes 4 a
host_wire (ipv6 bs) = bs

-- What the program may write of an address, by its kind.
abbrev pub written : HostAddress → ℕ → ℕ → Bytes
written null port services = replicate 26 0
written addr port services = wire services (host_wire addr) port

abbrev pub wire_size : HostAddress → ℕ
wire_size any = 10
wire_size _ = 26

length-written :
    (addr : HostAddress) (port services : ℕ)
    → ((bs : Bytes) → addr ≡ ipv6 bs → length bs ≡ 16)
    → length (written addr port services) ≡ wire_size addr
length-written null port services h = refl
length-written any port services h = omega (
  arith,
  length-append (le_bytes 8 services) (be_bytes 2 port),
  length-le_bytes 8 services,
  length-be_bytes 2 port,
)
length-written (ipv4 a) port services h =
    length-wire services (mapped ++ be_bytes 4 a) port (omega (arith, length-be_bytes 4 a))
length-written (ipv6 bs) port services h = length-wire services bs port (h bs refl)

of_host-written :
    (addr : HostAddress) (port services : ℕ)
    → write_address (of_host addr port services) ≡ written addr port services
unfolding write_address get_bin of_host be_bytes le_bytes
of_host-written null port services = refl
of_host-written any port services = refl
of_host-written (ipv4 a) port services = refl
of_host-written (ipv6 bs) port services = refl

-- An address that is not valid, however it was made, writes 26 zeros. One that is made of a host, a port and services
-- writes, if it is valid, the services, the 16 bytes of the host and the port: 26 bytes, if an IPv6 address has
-- 16; but for the dual-stack "any" address no branch of `decode_hp` writes anything, and 10 bytes are left. Of no
-- host it is not valid.
pub write_address-written :
    (a : NetAddr) (addr : HostAddress) (port services : ℕ)
    → a.is_valid ≡ false
    → ((bs : Bytes) → addr ≡ ipv6 bs → length bs ≡ 16)
    → (write_address a ≡ replicate 26 0)
      × (write_address (of_host addr port services) ≡ written addr port services)
      × (length (write_address (of_host addr port services)) ≡ wire_size addr)
unfolding write_address get_bin
write_address-written a addr port services e h = (
  rw e refl,
  of_host-written addr port services,
  ap length (of_host-written addr port services) ∙ length-written addr port services h,
)
