-- ===== src/Connector/Gossip/Exchange.antt =====
-- An exchange of transactions between two nodes, from the offer to the store.
use pinetd.Prelude.{
  ℕ, ◌+◌, ◌≡◌, ◌<◌, ◌-◌, ◌^◌, ◌*◌, sym, ap, ◌∙◌, List, [], ◌∷◌, map, subst, true, Bytes, codes,
  length, All, has_key, arith,
}
use pinetd.Prelude.Fault.{◌>>=◌, Returns, Returns-bind, Returns-mono}
use pinetd.Bitcoin.Tx.{double_sha256}
use pinetd.ElasticSearch.Documents.{IsServer}
use pinetd.Connector.Stream.{IsHash}
use pinetd.Connector.Inventory.Entries.{listing, packets}
use pinetd.Connector.Handshake.{Now}
use pinetd.Connector.Store.{knows}
use pinetd.Connector.Store.Blocks.{World}
use pinetd.Connector.Knowledge.{Known}
use pinetd.Connector.Knowledge.Cached.{less_room-Cached, knows-Cached_tx}
use pinetd.Connector.Knowledge.Adds.{IsSha256}
use pinetd.Connector.Client.{Client}
use pinetd.Connector.Client.Receive.{Holds, learned, IsSha256-IsHash}
use pinetd.Connector.Client.Serve.{found, tx_entries}
use pinetd.Connector.Gossip.{deliver, exchange}
use pinetd.Connector.Gossip.Learning.{
  wanted, length-wanted, wanted-All, All-wanted, Owns, contents, contents-IsTx, length-contents,
  found-contents, missing-Owns, learned-keeps, learned-contents,
}
use pinetd.Connector.Gossip.Rounds.{Is32, Asks, offered, asked, received}

All-both :
    (P Q : Bytes → Type 0) (hs : List Bytes)
    → ((h : Bytes) → P h → Is32 h → Q h)
    → All P hs
    → All Is32 hs
    → All Q hs
All-both P Q [] f a b = tt
All-both P Q (h ∷ hs) f (p, ps) (l, ls) = (f h p l, All-both P Q hs f ps ls)

-- The node knows each of the transactions.
abbrev pub Knows : {S : Type 0} → World S → List Bytes → Client S → Type 0
Knows w hs c = All (λ h. knows w.server 1 h c.fetcher.store ≡ true) hs

-- A node that has learned what it wanted knows all that was offered.
learned-Knows :
    {S : Type 0} (w : World S) (now : Now) (n : ℕ) (hs : List Bytes) (k j : Known)
    (o : All (Owns w.sha256 k) (wanted j hs)) (c : Client S)
    → All Is32 hs
    → Holds w now n (learned w.sha256 (contents w.sha256 k (wanted j hs) o) j) c
    → Knows w hs c
learned-Knows w now n hs k j o c a r =
    let ts = contents w.sha256 k (wanted j hs) o in
    let l = learned w.sha256 ts j in
    All-both (λ h. has_key h l.txs ≡ true) (λ h. knows w.server 1 h c.fetcher.store ≡ true) hs
      (λ h e size. knows-Cached_tx w n h l c.fetcher.store size r ∙ e)
      (All-wanted (λ h. has_key h l.txs ≡ true) j hs (learned-contents w.sha256 k j (wanted j hs) o)
        (λ h e. learned-keeps w.sha256 ts h j e))
      a

-- A node offers transactions that it has, by one "inv" with their hashes of 32 bytes: if both nodes hash alike, to 32
-- bytes, the hashes are those of the transactions, the other node's server does what is documented of a POST without
-- an identifier, the nodes' caches hold what abstract nodes know, with room for the transactions in the other's, the
-- databases find nothing under a hash, and the list and the transactions fit packets, then after the offer, the
-- other's request and the answer, each sent as bytes and read by `handleBuffer`, nothing has aborted, and the other
-- node knows every transaction that was offered.
pub exchange-Knows :
    {S T : Type 0} (a : World S) (b : World T) (now : Now) (n : ℕ) (hs : List Bytes) (ca : Client S)
    (cb : Client T) (k j : Known)
    → a.sha256 ≡ b.sha256
    → IsSha256 b.sha256
    → IsServer b.server
    → Holds a now n k ca
    → Holds b now (length hs) j cb
    → All (Owns b.sha256 k) hs
    → All Is32 hs
    → 36 * length hs < 2 ^ 31 - 33
    → Returns (Knows b hs) (exchange a b now (listing (tx_entries hs)) ca cb)
exchange-Knows {S} {T} a b now n hs ca cb k j same sha ok ra rb owns is_32 fits =
    let ha = double_sha256 a.sha256 in
    let hb = double_sha256 b.sha256 in
    let same_hash : ha ≡ hb = ap double_sha256 same in
    let is_hash = IsSha256-IsHash b.sha256 sha in
    let ws = wanted j hs in
    let o : All (Owns b.sha256 k) ws = wanted-All (Owns b.sha256 k) j hs owns in
    let ts = contents b.sha256 k ws o in
    Returns-bind (Asks b now ha (length hs) ws j) (Knows b hs)
      (deliver ha b now ((codes "inv", listing (tx_entries hs)) ∷ []) cb)
      (λ cb'.
        deliver hb a now cb'.fetcher.outbox ca >>= λ ca'. deliver ha b now ca'.fetcher.outbox cb')
      (offered b now ha (length hs) hs cb j same_hash is_hash is_32 fits rb)
      (λ cb' r. rw r.0 (
        Returns-bind (λ ca'. ca'.fetcher.outbox ≡ found k ws) (Knows b hs)
          (deliver hb a now (packets (codes "getdata") (tx_entries ws)) ca)
          (λ ca'. deliver ha b now ca'.fetcher.outbox cb')
          (asked a now hb n ws ca k (sym same_hash) (subst IsHash (sym same_hash) is_hash)
            (wanted-All Is32 j hs is_32) (omega (arith, length-wanted j hs, fits)) ra
            (missing-Owns b.sha256 k ws o))
          (λ ca' q.
            rw (q, found-contents b.sha256 k ws o)
              (Returns-mono (Holds b now 0 (learned b.sha256 ts j)) (Knows b hs)
                (deliver ha b now (map (λ dat. (codes "tx", dat)) ts) cb')
                (received b now ha 0 ts cb' j same_hash sha ok (contents-IsTx b.sha256 k ws o) (
                  less_room-Cached b (length ts + 0) (length hs) j cb'.fetcher.store
                    (omega (arith, length-wanted j hs, length-contents b.sha256 k ws o)) r.1))
                (λ c r'. learned-Knows b now 0 hs k j o c is_32 r')))))
