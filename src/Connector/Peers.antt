-- ===== src/Connector/Peers.antt =====
-- ModBitcoinConnector.cpp: the peers of the node, from `reload` to the client's destructor, and who is told of new
-- inventory. Objects are numbers.
use pinetd.Prelude.{
  ℕ, if◌then◌else◌, Option, none, some, List, [], ◌∷◌, ◌++◌, Bool, true, ◌==◌, Bytes, codes, split,
  Dict, has_key, put, remove, erase,
}
use pinetd.Core.Clients.{Client}
use pinetd.Core.Clients.{Daemon, client_add, client_lost}

-- A client, as far as the daemon is concerned.
pub record Peer : Type 0 where
  pub client : Client
  pub key : Bytes
  pub is_outgoing : Bool
  pub bitcoin_nonce : Bytes

-- The settings that `reload` reads.
pub record Settings : Type 0 where
  pub es_host : Option Bytes
  pub peer_learn : Option Bool
  pub peer_seed : Option (List Bytes)

-- `ModBitcoinConnector`. A connection that is under way has its host and port.
pub record Node : Type 0 where
  pub base : Daemon
  pub db_host : Option Bytes
  pub peer_learn : Bool
  pub peers : Dict ℕ
  pub nonce : List Bytes
  pub tmp_cnx : List (Option (Bytes × ℕ))
  pub listeners : List ℕ

abbrev pub or_else : {A : Type 0} → Option A → A → A
or_else none a = a
or_else (some b) a = b

abbrev pub default_seeds : List Bytes
default_seeds =
    codes "jun.dashjr.org/8333"
    ∷ codes "w003.mo.us.xta.net/8333"
    ∷ codes "bitcoincharts.com/8333"
    ∷ []

-- A seed's address, if it has two parts; how a text is read as a number is the argument.
unfoldable pub seed_address : (Bytes → ℕ) → Bytes → Option (Bytes × ℕ)
unfolding split
seed_address to_int seed = elim (split 47 seed) [
  | host ∷ port ∷ [] ↦ some (host, to_int port)
  | _ ↦ none
]

-- The loop of `reload` over the seeds.
unfoldable pub connect_seeds : (Bytes → ℕ) → List Bytes → Node → Node
unfolding has_key seed_address
connect_seeds to_int [] n = n
connect_seeds to_int (s ∷ ss) n = connect_seeds to_int ss (
    if has_key s n.peers
    then n
    else record n { tmp_cnx = n.tmp_cnx ++ (seed_address to_int s ∷ []) })

-- `reload`: the database is opened once, and the seeds are connected to that are not peers.
unfoldable pub reload : (Bytes → ℕ) → Settings → Node → Node
unfolding connect_seeds
reload to_int conf n =
    let host = or_else conf.es_host (codes "http://127.0.0.1:9200") in
    connect_seeds to_int (or_else conf.peer_seed default_seeds) (record n {
      db_host = some (or_else n.db_host host);
      peer_learn = or_else conf.peer_learn true;
    })

-- `clientInit`
unfoldable pub client_init : Peer → Node → Node
unfolding put
client_init p n = record n {
  listeners = n.listeners ++ (p.client.object ∷ []);
  peers = put p.key p.client.object n.peers;
}

-- `incomingTcp`, and `outgoingTcp` but for `sendVersion`, with the new client.
unfoldable pub incoming_tcp : Peer → Node → Node
unfolding client_init client_add
incoming_tcp p n = let n' = client_init p n in record n' { base = client_add p.client n'.base }

unfoldable pub outgoing_tcp : Peer → Node → Peer × Node
unfolding client_init client_add
outgoing_tcp p n =
    let n' = client_init p n in
    (record p { is_outgoing = true }, record n' { base = client_add p.client n'.base })

-- `unregisterPeer` and `unregisterNonce`
unfoldable pub unregister_peer : Bytes → Node → Node
unfolding remove
unregister_peer key n = record n { peers = remove key n.peers }

unfoldable pub unregister_nonce : Bytes → Node → Node
unfolding erase
unregister_nonce nonce n = record n { nonce = erase nonce n.nonce }

-- A connection of an object's slots, which Qt takes away with the object.
unfoldable pub disconnect : ℕ → List ℕ → List ℕ
disconnect o [] = []
disconnect o (l ∷ ls) = if l == o then disconnect o ls else l ∷ disconnect o ls

-- `~ModBitcoinConnectorClient`, and what follows: the signal `destroyed` to `clientLost`.
unfoldable pub destroy : Peer → Node → Node
unfolding unregister_peer unregister_nonce disconnect client_lost
destroy p n =
    let n' = unregister_nonce p.bitcoin_nonce (unregister_peer p.key n) in
    record n' {
      listeners = disconnect p.client.object n'.listeners;
      base = client_lost p.client.id n'.base;
    }
