-- ===== src/Tests/Client.antt =====
-- Runs of the whole client of the Bitcoin connector.
use pinetd.Prelude.{
  ℕ, ◌+◌, ◌≤◌, ◌≡◌, refl, Option, none, some, [], ◌∷◌, ◌++◌, false, Bytes, codes, replicate, arith,
  Dict, find, put, has_key, bytes_eq,
}
use pinetd.Prelude.Fault.{Returns}
use pinetd.DataStream.{le_bytes}
use pinetd.Bitcoin.Tx.{double_sha256}
use pinetd.Bitcoin.NetAddr.{null_addr}
use pinetd.ElasticSearch.{Object, string, empty, path, object_of}
use pinetd.Connector.{packet_bytes, front, handle_buffer}
use pinetd.Connector.Handshake.{Now}
use pinetd.Connector.Inventory.{Client as Requests}
use pinetd.Connector.Inventory.Entries.{listing}
use pinetd.Connector.Store.{Store, bitcoin}
use pinetd.Connector.Knowledge.{Known}
use pinetd.Connector.Knowledge.Refines.{IsFresh-Cached, nothing}
use pinetd.Connector.Knowledge.Steps.{Related}
use pinetd.Connector.Knowledge.Cached.{Cached}
use pinetd.Connector.Knowledge.Adds.{packet_tx-Cached}
use pinetd.Prelude.Base64.{to_base64}
use pinetd.Bitcoin.Block.{to_hex}
use pinetd.Connector.Blocks.{bitcoin_packet_tx}
use pinetd.Connector.Client.{Client, slots}
use pinetd.Connector.Client.Receive.{Holds, learned, handle_buffer-learned}
use pinetd.Connector.Client.Serve.{tx_entries}
use pinetd.Connector.Gossip.{exchange}
use pinetd.Connector.Gossip.Learning.{Owns}
use pinetd.Connector.Gossip.Exchange.{Knows, exchange-Knows}
use pinetd.Tests.Node.{server-IsServer, fresh, fresh-IsFresh, toy_hash, toy_hash-IsSha256, world}

fresh-Cached : (n : ℕ) → n ≤ 100 → Cached world n nothing fresh
fresh-Cached n l = IsFresh-Cached world n fresh l fresh-IsFresh

abbrev now : Now
now = record { timestamp = 1; nonce = replicate 8 1; peer = null_addr; block_height = 0 }

abbrev client : Client (Dict Object)
client = record {
  fetcher = record { block_todl_list = []; getblocks_timer = 5000; outbox = []; store = fresh };
  handshake = record {
    bitcoin_got_version = false;
    bitcoin_sent_version = false;
    bitcoin_nonce = [];
    remote_version = 0;
    remote_services = 0;
    remote_timestamp = 0;
    remote_user_agent = [];
    remote_height = 0;
    closed = false;
    nonces = [];
    outbox = [];
  };
}

abbrev tx_bytes : Bytes
tx_bytes = 5 ∷ 6 ∷ 7 ∷ []

-- A packet with a transaction and the first byte of another, after a part of it has come in.
abbrev chunk : Bytes
chunk =
    0xd9
    ∷ ((codes "tx" ++ replicate 10 0) ++ (3 ∷ 0 ∷ 0 ∷ 0 ∷ 5 ∷ 0 ∷ 0 ∷ 0 ∷ 5 ∷ 6 ∷ 7 ∷ 0xf9 ∷ []))

handle_buffer-learned_example :
    Returns
      (λ p'.
        (p'.in_buf ≡ 0xf9 ∷ [])
        × Returns (Holds world now 0 (learned toy_hash (tx_bytes ∷ []) nothing)) p'.state)
      (handle_buffer
        (double_sha256 toy_hash)
        (slots world now)
        2
        chunk
        (record { in_buf = 0xf9 ∷ 0xbe ∷ 0xb4 ∷ []; closed = false; state = some client }))
unfolding packet_bytes le_bytes front double_sha256
handle_buffer-learned_example =
    handle_buffer-learned world now 0 (tx_bytes ∷ []) (0xf9 ∷ []) chunk
      (record { in_buf = 0xf9 ∷ 0xbe ∷ 0xb4 ∷ []; closed = false; state = some client }) nothing
      server-IsServer toy_hash-IsSha256 (fresh-Cached (1 + 0) (omega arith))
      ((((omega arith, (omega arith, (omega arith, tt))), omega arith)), tt) refl refl

-- The node's store after that, and the answer to a request for the transaction and for another.
abbrev learned_store : Option (Store (Dict Object)) → Store (Dict Object)
learned_store none = fresh
learned_store (some st) = st

abbrev one_tx : Known
one_tx = learned toy_hash (tx_bytes ∷ []) nothing

learned_store-Cached :
    (o : Option (Store (Dict Object)))
    → Returns (Cached world 0 one_tx) o
    → Cached world 0 one_tx (learned_store o)
learned_store-Cached none r = absurd r
learned_store-Cached (some st) r = r

abbrev after : Store (Dict Object)
after = learned_store (bitcoin_packet_tx world tx_bytes fresh)

after-Cached : Cached world 0 one_tx after
after-Cached = learned_store-Cached (bitcoin_packet_tx world tx_bytes fresh) (
    packet_tx-Cached world 0 tx_bytes nothing fresh server-IsServer toy_hash-IsSha256
      (fresh-Cached 1 (omega arith)))

-- A store whose database has the transaction under its hash.
abbrev tx_key : Bytes
tx_key = path bitcoin (codes "tx") (to_hex (5 ∷ replicate 31 0))

abbrev tx_object : Object
tx_object = object_of ((codes "raw_data", string (to_base64 tx_bytes)) ∷ []) empty

abbrev kept : Store (Dict Object)
kept = record {
  inventory_cache = [];
  inventory_queue = one_tx.pending;
  db = (tx_key, tx_object) ∷ [];
}

abbrev requests : Requests
requests = record { block_todl_list = []; outbox = [] }

-- The node that knows the transaction offers it to one that knows nothing.
abbrev offering : Client (Dict Object)
offering = record client { fetcher = record client.fetcher { store = after } }

tx_bytes-Owns : Owns toy_hash one_tx (5 ∷ replicate 31 0)
unfolding find put has_key double_sha256 bytes_eq
tx_bytes-Owns = record {
  dat = tx_bytes;
  stored = refl;
  hashes = refl;
  fits = ((omega arith, (omega arith, (omega arith, tt))), omega arith);
}

exchange-Knows_example :
    Returns
      (Knows world ((5 ∷ replicate 31 0) ∷ []))
      (exchange world world now (listing (tx_entries ((5 ∷ replicate 31 0) ∷ []))) offering client)
exchange-Knows_example =
    exchange-Knows world world now 0 ((5 ∷ replicate 31 0) ∷ []) offering client one_tx nothing refl
      toy_hash-IsSha256 server-IsServer after-Cached (fresh-Cached 1 (omega arith))
      (tx_bytes-Owns, tt) (refl, tt) (omega arith)
