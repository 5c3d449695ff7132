-- ===== src/Connector/Client.antt =====
-- ModBitcoinConnectorClient whole: its slots on one state, with the node's store, as the packets call them.
pub mod Serve
pub mod Receive
use pinetd.Prelude.{
  ℕ, zero, suc, ◌==◌, if◌then◌else◌, Option, none, some, List, [], ◌∷◌, ◌++◌, Bool, true, false,
  Bytes, codes, bytes_eq, ltb,
}
use pinetd.Prelude.Fault.{◌>>=◌}
use pinetd.Bitcoin.Stream.{read_int}
use pinetd.Connector.{Slots}
use pinetd.Connector.Inventory.{
  Entry, read_entry, rounds, too_short, send_entries, bitcoin_packet_inv, bitcoin_packet_ping,
}
use pinetd.Connector.Inventory.{Node as View}
use pinetd.Connector.Inventory.{Client as Requests}
use pinetd.Connector.Inventory.{send_packet as put_packet}
use pinetd.Connector.Handshake.{Now, Handshake, bitcoin_packet_version, bitcoin_packet_verack}
use pinetd.Connector.Store.{Store, knows, get_inventory}
use pinetd.Connector.Store.Blocks.{World}
use pinetd.Connector.Blocks.{Fetcher, bitcoin_packet_tx, bitcoin_packet_block}

-- The parts of the client; what was sent is in the outbox of the first.
pub record Client (S : Type 0) : Type 0 where
  pub fetcher : Fetcher S
  pub handshake : Handshake

module _ {S : Type 0} where
  -- A slot on a part of the client.
  abbrev pub on_requests : (Requests × Store S → Requests × Store S) → Client S → Client S
  on_requests f c =
      let (r, st) = f (
        record { block_todl_list = c.fetcher.block_todl_list; outbox = c.fetcher.outbox },
        c.fetcher.store,
      ) in
      record c {
        fetcher = record c.fetcher {
          block_todl_list = r.block_todl_list;
          outbox = r.outbox;
          store = st;
        };
      }

  abbrev pub on_handshake : (Handshake → Handshake) → Client S → Client S
  on_handshake f c =
      let h = f (record c.handshake { outbox = c.fetcher.outbox }) in
      record { fetcher = record c.fetcher { outbox = h.outbox }; handshake = h }

  abbrev pub on_store : (Store S → Option (Store S)) → Client S → Option (Client S)
  on_store f c = do
    st ← f c.fetcher.store
    some (record c { fetcher = record c.fetcher { store = st } })

  abbrev pub on_fetcher : (Fetcher S → Option (Fetcher S)) → Client S → Option (Client S)
  on_fetcher f c = do x ← f c.fetcher; some (record c { fetcher = x })

  -- The slots on a client that may have ended with an abort.
  unfoldable pub lift_slot :
      Option (Bytes → Client S → Option (Client S))
      → Option (Bytes → Option (Client S) → Option (Client S))
  lift_slot none = none
  lift_slot (some f) = some (λ pkt o. o >>= f pkt)

module _ {S : Type 0} (w : World S) where
  -- What the slots for "inv" and "getdata" see of the node: a call of `knows` changes nothing.
  abbrev pub view : Store S → View
  view st = record {
    knows = λ type hash. knows w.server type hash st;
    get_inventory = λ type hash. (get_inventory w.server type hash st).0;
  }

  -- A round of the loop of `bitcoin_packet_getdata`, on the store, whose cache it uses.
  unfoldable pub serve_known : Entry → Requests × Store S → Requests × Store S
  unfolding get_inventory put_packet
  serve_known (type, hash) (c, st) =
      let (res, st') = get_inventory w.server type hash st in
      if type == 1
      then (put_packet (codes "tx") res c, st')
      else if type == 2
      then (put_packet (codes "block") res c, st')
      else (c, st')

  unfoldable pub serve_entry :
      Entry → (Requests × Store S) × List Entry → (Requests × Store S) × List Entry
  unfolding serve_known knows
  serve_entry (type, hash) ((c, st), es) =
      if knows w.server type hash st
      then (serve_known (type, hash) (c, st), es)
      else ((c, st), es ++ ((type, hash) ∷ []))

  unfoldable pub serve_loop :
      ℕ → Bytes → (Requests × Store S) × List Entry → (Requests × Store S) × List Entry
  unfolding serve_entry
  serve_loop zero s t = t
  serve_loop (suc n) s t = let (e, s') = read_entry s in serve_loop n s' (serve_entry e t)

  -- `bitcoin_packet_getdata`
  unfoldable pub serve : Bytes → Requests × Store S → Requests × Store S
  unfolding serve_loop send_entries too_short rounds
  serve pkt (c, st) =
      let (count, s) = read_int pkt in
      let ((c', st'), es) = serve_loop (rounds count) s ((c, st), []) in
      if too_short count pkt then (c, st) else (send_entries (codes "notfound") es c', st')

  -- The client's slots, by the type of the packet; "addr" has no effect but on the log.
  unfoldable pub slot : Now → Bytes → Option (Bytes → Client S → Option (Client S))
  unfolding bytes_eq bitcoin_packet_tx bitcoin_packet_block bitcoin_packet_inv serve
      bitcoin_packet_ping bitcoin_packet_version bitcoin_packet_verack
  slot now type =
      if bytes_eq type (codes "tx")
      then some (λ pkt. on_store (bitcoin_packet_tx w pkt))
      else if bytes_eq type (codes "block")
      then some (λ pkt. on_fetcher (bitcoin_packet_block w pkt))
      else if bytes_eq type (codes "inv")
      then some (λ pkt c. some (on_requests (λ q. (bitcoin_packet_inv (view q.1) pkt q.0, q.1)) c))
      else if bytes_eq type (codes "getdata")
      then some (λ pkt c. some (on_requests (serve pkt) c))
      else if bytes_eq type (codes "ping")
      then some (λ pkt c. some (on_requests (λ q. (bitcoin_packet_ping pkt q.0, q.1)) c))
      else if bytes_eq type (codes "version")
      then some (λ pkt c. some (on_handshake (bitcoin_packet_version now pkt) c))
      else if bytes_eq type (codes "verack")
      then some (λ pkt c. some (
          on_handshake bitcoin_packet_verack
            (record c { fetcher = record c.fetcher { getblocks_timer = 5000 } })))
      else if bytes_eq type (codes "addr")
      then some (λ pkt c. some c)
      else none

  unfoldable pub slots : Now → Slots (Option (Client S))
  unfolding slot lift_slot
  slots now type = lift_slot (slot now type)
