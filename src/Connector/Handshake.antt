-- ===== src/Connector/Handshake.antt =====
-- ModBitcoinConnectorClient: `sendVersion` and the slots for "version" and "verack", with the nonces of
-- ModBitcoinConnector. The clock, the random nonce and the peer's address are arguments.
pub mod Nonces
use pinetd.Prelude.{
  ℕ, ◌+◌, if◌then◌else◌, List, [], ◌∷◌, ◌++◌, Bool, true, false, Bytes, codes, has, add, erase,
  drop,
}
use pinetd.DataStream.{Reader, ◌>>=◌, ◌>>◌, pure, le_bytes, read_le, skip_raw}
use pinetd.Bitcoin.Stream.{write_string, write_data, read_string, read_data}
use pinetd.Bitcoin.NetAddr.{NetAddr, null_addr, write_address}

-- What `sendVersion` asks the system and the daemon for.
pub record Now : Type 0 where
  pub timestamp : ℕ
  pub nonce : Bytes
  pub peer : NetAddr
  pub block_height : ℕ

-- A client's part, with the daemon's set of nonces. The signed numbers of the peer are kept as the bits
-- that came.
pub record Handshake : Type 0 where
  pub bitcoin_got_version : Bool
  pub bitcoin_sent_version : Bool
  pub bitcoin_nonce : Bytes
  pub remote_version : ℕ
  pub remote_services : ℕ
  pub remote_timestamp : ℕ
  pub remote_user_agent : Bytes
  pub remote_height : ℕ
  pub closed : Bool
  pub nonces : List Bytes
  pub outbox : List (Bytes × Bytes)

-- `registerNonce`, `unregisterNonce` and `knownNonce`.
unfoldable pub register_nonce : Bytes → Handshake → Handshake
register_nonce n h = record h { nonces = add n h.nonces }

unfoldable pub unregister_nonce : Bytes → Handshake → Handshake
unregister_nonce n h = record h { nonces = erase n h.nonces }

unfoldable pub known_nonce : Bytes → Handshake → Bool
known_nonce n h = has n h.nonces

unfoldable pub send_packet : Bytes → Bytes → Handshake → Handshake
send_packet type dat h = record h { outbox = h.outbox ++ ((type, dat) ∷ []) }

abbrev pub user_agent : Bytes
user_agent = codes "/BitcoinConnector:0.1(pinetd4)/"

-- The content of the packet of `sendVersion`.
unfoldable pub version_content : Now → Bytes
version_content t =
    le_bytes 4 80000
    ++ (le_bytes 8 1
        ++ (le_bytes 8 t.timestamp
            ++ (write_address t.peer
                ++ (write_address null_addr
                    ++ (write_data t.nonce
                        ++ (write_string user_agent ++ le_bytes 4 t.block_height))))))

-- `sendVersion`
unfoldable pub send_version : Now → Handshake → Handshake
unfolding register_nonce send_packet
send_version t h =
    if h.bitcoin_sent_version
    then h
    else send_packet (codes "version") (version_content t)
        (register_nonce t.nonce (record h { bitcoin_sent_version = true; bitcoin_nonce = t.nonce }))

-- The end of `bitcoin_packet_version`.
unfoldable pub accept_version : Now → Handshake → Handshake
accept_version t h =
    send_packet (codes "verack") [] (send_version t (record h { bitcoin_got_version = true }))

-- The fields behind the nonce.
unfoldable pub rest_of_version : Now → Bytes → Handshake → Handshake
rest_of_version t s h =
    let (agent, s') = read_string s in
    let (height, s'') = read_le 4 s' in
    accept_version t (record h { remote_user_agent = agent; remote_height = height })

-- The part behind the receiver's address, which may be missing.
unfoldable pub long_version : Now → Bytes → Handshake → Handshake
long_version t [] h = accept_version t h
long_version t (b ∷ bs) h =
    let (nonce, s) = read_data 8 (drop 26 (b ∷ bs)) in
    if known_nonce nonce h then record h { closed = true } else rest_of_version t s h

unfoldable pub read_numbers : Reader (ℕ × ℕ × ℕ)
read_numbers = do
  version ← read_le 4
  services ← read_le 8
  timestamp ← read_le 8
  pure (version, services, timestamp)

-- `bitcoin_packet_version`
unfoldable pub bitcoin_packet_version : Now → Bytes → Handshake → Handshake
bitcoin_packet_version t pkt h =
    let ((version, services, timestamp), s) = read_numbers pkt in
    long_version t (drop 26 s) (record h {
      remote_version = version;
      remote_services = services;
      remote_timestamp = timestamp;
    })

-- `bitcoin_packet_verack`, but for the timer; `registerPeer` on an outgoing connection has no effect.
unfoldable pub bitcoin_packet_verack : Handshake → Handshake
unfolding unregister_nonce
bitcoin_packet_verack h = unregister_nonce h.bitcoin_nonce h
