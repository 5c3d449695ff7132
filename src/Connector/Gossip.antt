-- ===== src/Connector/Gossip.antt =====
-- Two nodes that exchange transactions, by the packets "inv", "getdata" and "tx" of ModBitcoinConnectorClient.
pub mod Learning
pub mod Rounds
pub mod Exchange
use pinetd.Prelude.{
  ℕ, suc, ◌≡◌, ◌≢◌, ◌≤◌, ◌<◌, ◌-◌, ◌^◌, ◌*◌, ◌+◌, refl, sym, ap, ◌∙◌, ltb, Option, none, some, List,
  [], ◌∷◌, ◌++◌, map, if◌then◌else◌, Bool, true, false, Bytes, codes, length, All, Dict, find,
  has_key, has_key-find, append-nil, length-append, arith, Bool-cases, inl, inr,
}
use pinetd.Prelude.Fault.{◌>>=◌, Returns, Returns-bind, Returns-some}
use pinetd.DataStream.{le_bytes, length-le_bytes}
use pinetd.Bitcoin.Stream.{write_int}
use pinetd.Bitcoin.Tx.{double_sha256}
use pinetd.ElasticSearch.Documents.{IsServer}
use pinetd.Connector.{Peer, Slots, front, waits, invoke, handle_buffer}
use pinetd.Connector.Stream.{Message, IsMessage, IsHash, sent, invoke_all, handle_buffer-sent}
use pinetd.Connector.Inventory.{Entry, write_entries}
use pinetd.Connector.Inventory.Entries.{IsEntry, listing, packets, length-write_entries}
use pinetd.Connector.Handshake.{Now}
use pinetd.Connector.Store.{Store, knows}
use pinetd.Connector.Store.Blocks.{World}
use pinetd.Connector.Blocks.{Fetcher}
use pinetd.Connector.Knowledge.{Known}
use pinetd.Connector.Knowledge.Steps.{Related}
use pinetd.Connector.Client.{Client, slots}

-- What `sendPacket` was given, as the frame that it writes.
abbrev pub message : Bytes × Bytes → Message
message (type, dat) = record { type = type; content = dat }

-- A client when nothing waits to be sent.
abbrev pub silent : {S : Type 0} → Client S → Client S
silent c = record c { fetcher = record c.fetcher { outbox = [] } }

-- Packets reach a client, whose buffer is empty, as the bytes that `sendPacket` wrote with the sender's hash.
abbrev pub deliver :
    {S : Type 0}
    → (Bytes → Bytes)
    → World S
    → Now
    → List (Bytes × Bytes)
    → Client S
    → Option (Client S)
deliver hash w now ps c =
    handle_buffer (double_sha256 w.sha256) (slots w now) (suc (length (map message ps)))
      (sent hash (map message ps)) (record { in_buf = []; closed = false; state = some (silent c) })
    >>= λ p. p.state

-- A node offers its inventory; the other's packets reach it, and then its own reach the other.
abbrev pub exchange :
    {S T : Type 0} → World S → World T → Now → Bytes → Client S → Client T → Option (Client T)
exchange a b now offer ca cb = do
  cb' ← deliver (double_sha256 a.sha256) b now ((codes "inv", offer) ∷ []) cb
  ca' ← deliver (double_sha256 b.sha256) a now cb'.fetcher.outbox ca
  deliver (double_sha256 a.sha256) b now ca'.fetcher.outbox cb'

pub length-write_int : (n : ℕ) → length (write_int n) ≤ 9
unfolding write_int
length-write_int n = ground (
  arith,
  length-append (le_bytes 1 253) (le_bytes 2 n),
  length-append (le_bytes 1 254) (le_bytes 4 n),
  length-append (le_bytes 1 255) (le_bytes 8 n),
  length-le_bytes 1 n,
  length-le_bytes 1 253,
  length-le_bytes 1 254,
  length-le_bytes 1 255,
  length-le_bytes 2 n,
  length-le_bytes 4 n,
  length-le_bytes 8 n,
)

pub length-listing : (es : List Entry) → All IsEntry es → length (listing es) ≤ 9 + 36 * length es
length-listing es h = omega (
  arith,
  length-append (write_int (length es)) (write_entries es),
  length-write_int (length es),
  length-write_entries es h,
)

-- The slots see the packets one after the other.
pub deliver-invoke_all :
    {S : Type 0} (hash : Bytes → Bytes) (w : World S) (now : Now) (ps : List (Bytes × Bytes))
    (c : Client S)
    → hash ≡ double_sha256 w.sha256
    → IsHash (double_sha256 w.sha256)
    → All IsMessage (map message ps)
    → deliver hash w now ps c ≡ invoke_all (slots w now) (map message ps) (some (silent c))
unfolding front
deliver-invoke_all {S} hash w now ps c same is_hash h =
    let p : Peer (Option (Client S)) = record {
      in_buf = [];
      closed = false;
      state = some (silent c);
    } in
    let ms = map message ps in
    rw same (
      ap (λ (o : Option (Peer (Option (Client S)))). o >>= λ p. p.state)
        (handle_buffer-sent (double_sha256 w.sha256) is_hash (slots w now) ms []
          (sent (double_sha256 w.sha256) ms) p (sym (append-nil (sent (double_sha256 w.sha256) ms)))
          h refl))
