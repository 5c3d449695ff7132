-- ===== src/Tests/Handshake.antt =====
-- Runs of the handshake.
use pinetd.Prelude.{◌≡◌, refl, if◌then◌else◌, [], ◌∷◌, true, false, replicate, has, arith}
use pinetd.Bitcoin.NetAddr.{null_addr, write_address, get_bin}
use pinetd.Connector.Handshake.{
  Now, Handshake, version_content, send_version, accept_version, bitcoin_packet_version,
}
use pinetd.Connector.Handshake.Nonces.{
  IsNow, with_numbers, with_fields, bitcoin_packet_version-content, send_version_self,
}

abbrev now : Now
now = record { timestamp = 1000; nonce = replicate 8 5; peer = null_addr; block_height = 7 }

abbrev fresh : Handshake
fresh = record {
  bitcoin_got_version = false;
  bitcoin_sent_version = false;
  bitcoin_nonce = [];
  remote_version = 0;
  remote_services = 0;
  remote_timestamp = 0;
  remote_user_agent = [];
  remote_height = 0;
  closed = false;
  nonces = replicate 8 6 ∷ [];
  outbox = [];
}

now-IsNow : IsNow now
unfolding write_address get_bin null_addr
now-IsNow = record {
  timestamp = omega arith;
  nonce = refl;
  peer = refl;
  block_height = omega arith;
}

bitcoin_packet_version-content_example : bitcoin_packet_version now (version_content now) fresh ≡ (
    if has (replicate 8 5) fresh.nonces
    then record (with_numbers now fresh) { closed = true }
    else accept_version now (with_fields now fresh))
bitcoin_packet_version-content_example = bitcoin_packet_version-content now now fresh now-IsNow

send_version_self_example :
    bitcoin_packet_version now (version_content now) (send_version now fresh)
    ≡ record (with_numbers now (send_version now fresh)) { closed = true }
send_version_self_example =
    send_version_self now now fresh (send_version now fresh) now-IsNow refl refl
