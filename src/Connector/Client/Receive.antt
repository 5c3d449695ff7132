-- ===== src/Connector/Client/Receive.antt =====
-- Transactions, from the bytes of a connection to the node's store.
use pinetd.Prelude.{
  ℕ, ◌+◌, suc, ◌^◌, ◌-◌, ◌<◌, ◌≡◌, refl, Option, none, some, List, [], ◌∷◌, ◌++◌, map, Bytes, codes,
  length, All, IsByte, bytes_eq, arith,
}
use pinetd.Prelude.Fault.{Returns, Returns-bind}
use pinetd.Bitcoin.Tx.{double_sha256}
use pinetd.ElasticSearch.Documents.{IsServer}
use pinetd.Connector.{Peer, waits, front, invoke, handle_buffer}
use pinetd.Connector.Stream.{Message, IsMessage, IsHash, sent, invoke_all, handle_buffer-sent}
use pinetd.Connector.Handshake.{Now}
use pinetd.Connector.Store.Blocks.{World}
use pinetd.Connector.Blocks.{bitcoin_packet_tx}
use pinetd.Connector.Knowledge.{tx, Known, learn}
use pinetd.Connector.Knowledge.Cached.{Cached, less_room-Cached}
use pinetd.Connector.Knowledge.Adds.{IsSha256, packet_tx-Cached}
use pinetd.Connector.Client.{Client, slot, slots, lift_slot, on_store}

abbrev pub tx_message : Bytes → Message
tx_message dat = record { type = codes "tx"; content = dat }

-- The bytes of a transaction, few enough for one packet.
abbrev pub IsTx : Bytes → Type 0
IsTx dat = All IsByte dat × (length dat < 2 ^ 31 - 24)

tx_message-IsMessage : (dat : Bytes) → IsTx dat → IsMessage (tx_message dat)
tx_message-IsMessage dat h = record {
  nonzero = ((λ p. ground (arith, p)), ((λ p. ground (arith, p)), tt));
  type = omega arith;
  content = h.1;
}

pub tx_messages-IsMessage : (ts : List Bytes) → All IsTx ts → All IsMessage (map tx_message ts)
tx_messages-IsMessage [] h = tt
tx_messages-IsMessage (t ∷ ts) (h, hs) = (tx_message-IsMessage t h, tx_messages-IsMessage ts hs)

-- What the abstract node knows after transactions.
abbrev pub learned : (Bytes → Bytes) → List Bytes → Known → Known
learned sha256 [] k = k
learned sha256 (t ∷ ts) k = learned sha256 ts (learn sha256 (tx t) k).1

module _ {S : Type 0} (w : World S) (now : Now) where
  -- The client's store holds what the abstract node knows, with room for n entries more.
  abbrev pub Holds : ℕ → Known → Client S → Type 0
  Holds n k c = Cached w n k c.fetcher.store

  tx_slot :
      (dat : Bytes) (c : Client S)
      → invoke (slots w now (codes "tx")) dat (some c) ≡ on_store (bitcoin_packet_tx w dat) c
  unfolding slots slot lift_slot invoke bytes_eq
  tx_slot dat c = refl

  pub invoke_all-Holds :
      (n : ℕ) (ts : List Bytes) (o : Option (Client S)) (k : Known)
      → IsServer w.server
      → IsSha256 w.sha256
      → Returns (Holds (length ts + n) k) o
      → Returns (Holds n (learned w.sha256 ts k)) (invoke_all (slots w now) (map tx_message ts) o)
  invoke_all-Holds n [] none k ok sha r = absurd r
  invoke_all-Holds n [] (some c) k ok sha r =
      less_room-Cached w n (0 + n) k c.fetcher.store (omega arith) r
  invoke_all-Holds n (t ∷ ts) none k ok sha r = absurd r
  invoke_all-Holds n (t ∷ ts) (some c) k ok sha r =
      let k' = (learn w.sha256 (tx t) k).1 in
      let m = length ts + n in
      let room =
        less_room-Cached w (suc m) (suc (length ts) + n) k c.fetcher.store (omega arith) r in
      invoke_all-Holds n ts (invoke (slots w now (codes "tx")) t (some c)) k' ok sha (
        rw (tx_slot t c) (
          Returns-bind (Cached w m k') (Holds m k') (bitcoin_packet_tx w t c.fetcher.store)
            (λ st. some (record c { fetcher = record c.fetcher { store = st } }))
            (packet_tx-Cached w m t k c.fetcher.store ok sha room) (λ st r'. r')))

-- The hash of `sendPacket` is long enough for its four bytes.
pub IsSha256-IsHash : (sha256 : Bytes → Bytes) → IsSha256 sha256 → IsHash (double_sha256 sha256)
IsSha256-IsHash sha256 sha dat = omega (arith, sha dat)

-- However the bytes of a connection arrive: if what was kept and what comes in are packets with transactions that
-- fit them, and the beginning of another packet, the hash gives 32 bytes, the server does what is documented of a
-- POST without an identifier, the cache holds what an abstract node knows and has room for the transactions, and
-- the database finds nothing under a hash, then `handleBuffer` ends without an abort, the beginning is kept, and
-- the cache holds what the abstract node knows after it learned these transactions one after the other.
pub handle_buffer-learned :
    {S : Type 0} (w : World S) (now : Now) (n : ℕ) (ts : List Bytes) (rest dat : Bytes)
    (p : Peer (Option (Client S))) (k : Known)
    → IsServer w.server
    → IsSha256 w.sha256
    → Returns (Holds w now (length ts + n) k) p.state
    → All IsTx ts
    → p.in_buf ++ dat ≡ sent (double_sha256 w.sha256) (map tx_message ts) ++ rest
    → front (double_sha256 w.sha256) rest ≡ waits
    → Returns
        (λ p'. (p'.in_buf ≡ rest) × Returns (Holds w now n (learned w.sha256 ts k)) p'.state)
        (handle_buffer
          (double_sha256 w.sha256)
          (slots w now)
          (suc (length (map tx_message ts)))
          dat
          p)
handle_buffer-learned w now n ts rest dat p k ok sha r h e f =
    rw
      (handle_buffer-sent (double_sha256 w.sha256) (IsSha256-IsHash w.sha256 sha) (slots w now)
        (map tx_message ts) rest dat p e (tx_messages-IsMessage ts h) f)
      (refl, invoke_all-Holds w now n ts p.state k ok sha r)
