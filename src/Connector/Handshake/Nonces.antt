-- ===== src/Connector/Handshake/Nonces.antt =====
-- The handshake: `sendVersion` and the slot for "version" together.
use pinetd.Prelude.{
  ℕ, ◌^◌, ◌<◌, ◌≡◌, ap, ◌∙◌, if◌then◌else◌, [], ◌++◌, Bool, true, false, Bytes, length, drop, has,
  has-add, append-nil, drop-append, arith,
}
use pinetd.DataStream.{le_bytes, read_le, read_le-le_bytes}
use pinetd.Bitcoin.Stream.{write_string}
use pinetd.Bitcoin.Stream.RoundTrip.{read_data-append, read_string-write_string}
use pinetd.Bitcoin.NetAddr.{null_addr, write_address, get_bin}
use pinetd.Connector.Handshake.{
  Now, Handshake, register_nonce, known_nonce, send_packet, user_agent, version_content,
  send_version, accept_version, rest_of_version, long_version, read_numbers, bitcoin_packet_version,
}

-- The ranges of what `sendVersion` writes; the peer's address takes its 26 bytes.
pub record IsNow (t : Now) : Type 0 where
  pub timestamp : t.timestamp < 2 ^ 64
  pub nonce : length t.nonce ≡ 8
  pub peer : length (write_address t.peer) ≡ 26
  pub block_height : t.block_height < 2 ^ 32

-- A client with the numbers of a peer's version, and with all of its fields.
abbrev pub with_numbers : Now → Handshake → Handshake
with_numbers t h = record h {
  remote_version = 80000;
  remote_services = 1;
  remote_timestamp = t.timestamp;
}

abbrev pub with_fields : Now → Handshake → Handshake
with_fields t h = record (with_numbers t h) {
  remote_user_agent = user_agent;
  remote_height = t.block_height;
}

read_numbers-append :
    (v s t : ℕ) (rest : Bytes)
    → v < 2 ^ 32
    → s < 2 ^ 64
    → t < 2 ^ 64
    → read_numbers (le_bytes 4 v ++ (le_bytes 8 s ++ (le_bytes 8 t ++ rest))) ≡ ((v, s, t), rest)
unfolding read_numbers
read_numbers-append v s t rest hv hs ht = simp (
  read_le-le_bytes 4 v (le_bytes 8 s ++ (le_bytes 8 t ++ rest)) hv,
  read_le-le_bytes 8 s (le_bytes 8 t ++ rest) hs,
  read_le-le_bytes 8 t rest ht,
)

rest_of_version-fields :
    (now : Now) (agent : Bytes) (height : ℕ) (h : Handshake)
    → length agent < 2 ^ 31
    → height < 2 ^ 32
    → rest_of_version now (write_string agent ++ le_bytes 4 height) h
      ≡ accept_version now (record h { remote_user_agent = agent; remote_height = height })
unfolding rest_of_version
rest_of_version-fields now agent height h a b =
    let number : read_le 4 (le_bytes 4 height) ≡ (height, []) =
      rw append-nil at (read_le-le_bytes 4 height [] b) in
    ap
      (λ (q : Bytes × Bytes).
        (let (m, s) = read_le 4 q.1 in
          accept_version now (record h { remote_user_agent = q.0; remote_height = m })))
      (read_string-write_string agent (le_bytes 4 height) a)
    ∙ ap
        (λ (q : ℕ × Bytes).
          accept_version now (record h { remote_user_agent = agent; remote_height = q.0 }))
        number

long_version-nonce :
    (now : Now) (nonce rest : Bytes) (h : Handshake)
    → length nonce ≡ 8
    → long_version now (write_address null_addr ++ (nonce ++ rest)) h
      ≡ (if has nonce h.nonces then record h { closed = true } else rest_of_version now rest h)
unfolding long_version write_address get_bin null_addr known_nonce
long_version-nonce now nonce rest h n =
    ap
      (λ (q : Bytes × Bytes).
        if has q.0 h.nonces then record h { closed = true } else rest_of_version now q.1 h)
      (read_data-append 8 nonce rest n (omega arith))

sent_nonce :
    (t : Now) (h : Handshake)
    → h.bitcoin_sent_version ≡ false
    → has t.nonce (send_version t h).nonces ≡ true
unfolding send_version register_nonce send_packet
sent_nonce t h new = rw new (has-add t.nonce h.nonces)

-- A client that reads what `sendVersion` wrote, at another time or of another daemon, has the fields
-- that were written, and accepts, or closes if the nonce is one of its own daemon's.
pub bitcoin_packet_version-content :
    (now t : Now) (h : Handshake)
    → IsNow t
    → bitcoin_packet_version now (version_content t) h ≡ (
        if has t.nonce h.nonces
        then record (with_numbers t h) { closed = true }
        else accept_version now (with_fields t h))
unfolding bitcoin_packet_version version_content
bitcoin_packet_version-content now t h r =
    let fields = write_string user_agent ++ le_bytes 4 t.block_height in
    let behind = write_address null_addr ++ (t.nonce ++ fields) in
    let shorter : drop 26 (write_address t.peer ++ behind) ≡ behind =
      drop-append 26 (write_address t.peer) behind r.peer in
    ap
      (λ (q : (ℕ × ℕ × ℕ) × Bytes). long_version now (drop 26 q.1) (record h {
        remote_version = (q.0).0;
        remote_services = (q.0).1;
        remote_timestamp = (q.0).2;
      }))
      (read_numbers-append 80000 1 t.timestamp (write_address t.peer ++ behind) (omega arith)
        (omega arith) r.timestamp)
    ∙ ap (λ (s : Bytes). long_version now s (with_numbers t h)) shorter
    ∙ long_version-nonce now t.nonce fields (with_numbers t h) r.nonce
    ∙ ap
        (λ (k : Handshake).
          if has t.nonce h.nonces then record (with_numbers t h) { closed = true } else k)
        (rest_of_version-fields now user_agent t.block_height (with_numbers t h) (omega arith)
          r.block_height)

-- A daemon that is connected to itself finds it: when one of its clients has sent its version, and
-- another, with the nonces as they are then, reads it, that one closes, and sends nothing more.
pub send_version_self :
    (now t : Now) (h h' : Handshake)
    → IsNow t
    → h.bitcoin_sent_version ≡ false
    → h'.nonces ≡ (send_version t h).nonces
    → bitcoin_packet_version now (version_content t) h'
      ≡ record (with_numbers t h') { closed = true }
send_version_self now t h h' r new same =
    let known : has t.nonce h'.nonces ≡ true =
      ap (λ ns. has t.nonce ns) same ∙ sent_nonce t h new in
    bitcoin_packet_version-content now t h' r
    ∙ ap
        (λ (b : Bool).
          if b
          then record (with_numbers t h') { closed = true }
          else accept_version now (with_fields t h'))
        known
