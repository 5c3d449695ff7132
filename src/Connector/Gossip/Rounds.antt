-- ===== src/Connector/Gossip/Rounds.antt =====
-- The three rounds of an exchange of transactions.
use pinetd.Prelude.{
  ◌+◌, ℕ, ◌≡◌, ◌≢◌, ◌≤◌, ◌<◌, ◌-◌, ◌^◌, ◌*◌, refl, sym, ap, ◌∙◌, some, List, [], ◌∷◌, ◌++◌, map,
  subst, Bool, Bytes, codes, length, All, has_key, append-nil, arith, Bool-cases, inl, inr,
  bytes_eq,
}
use pinetd.Prelude.Fault.{Returns}
use pinetd.Bitcoin.Tx.{double_sha256}
use pinetd.ElasticSearch.Documents.{IsServer}
use pinetd.Connector.{invoke}
use pinetd.Connector.Stream.{Message, IsMessage, IsHash}
use pinetd.Connector.Inventory.{Entry, bitcoin_packet_inv}
use pinetd.Connector.Inventory.{Client as Requests}
use pinetd.Connector.Inventory.Entries.{listing, packets}
use pinetd.Connector.Inventory.Requests.{requested, is_waiting, bitcoin_packet_inv-listing}
use pinetd.Connector.Handshake.{Now}
use pinetd.Connector.Store.{Store}
use pinetd.Connector.Store.Blocks.{World}
use pinetd.Connector.Knowledge.{Known}
use pinetd.Connector.Knowledge.Cached.{Cached, Cached-IsView, knows-Cached_tx}
use pinetd.Connector.Knowledge.Adds.{IsSha256}
use pinetd.Connector.Client.{Client, slot, slots, lift_slot, on_requests, serve, view}
use pinetd.Connector.Client.Receive.{
  Holds, learned, tx_message, IsTx, tx_messages-IsMessage, invoke_all-Holds, IsSha256-IsHash,
}
use pinetd.Connector.Client.Serve.{
  found, missing, tx_entries, tx_entries-IsEntry, length-tx_entries, serve_listed,
}
use pinetd.Connector.Gossip.{message, silent, deliver, length-listing, deliver-invoke_all}
use pinetd.Connector.Gossip.Learning.{wanted}

-- A hash of 32 bytes.
abbrev pub Is32 : Bytes → Type 0
Is32 h = length h ≡ 32

-- A list of transactions fits a packet.
listing-IsMessage :
    (type : Bytes) (hs : List Bytes)
    → All (λ b. b ≢ 0) type
    → length type ≤ 12
    → All Is32 hs
    → 36 * length hs < 2 ^ 31 - 33
    → IsMessage (message (type, listing (tx_entries hs)))
listing-IsMessage type hs z t a l = record {
  nonzero = z;
  type = t;
  content =
      omega
        (arith, length-listing (tx_entries hs) (tx_entries-IsEntry hs a), length-tx_entries hs, l);
}

inv_nonzero : All (λ b. b ≢ 0) (codes "inv")
inv_nonzero = ((λ p. ground (arith, p)), ((λ p. ground (arith, p)), ((λ p. ground (arith, p)), tt)))

getdata_nonzero : All (λ b. b ≢ 0) (codes "getdata")
getdata_nonzero = (
  (λ p. ground (arith, p)),
  (
    (λ p. ground (arith, p)),
    (
      (λ p. ground (arith, p)),
      (
        (λ p. ground (arith, p)),
        ((λ p. ground (arith, p)), ((λ p. ground (arith, p)), ((λ p. ground (arith, p)), tt))),
      ),
    ),
  ),
)

messages-tx :
    (ts : List Bytes) → map message (map (λ dat. (codes "tx", dat)) ts) ≡ map tx_message ts
messages-tx [] = refl
messages-tx (t ∷ ts) = ap (λ (ms : List Message). tx_message t ∷ ms) (messages-tx ts)

module _ {S : Type 0} (w : World S) (now : Now) (hash : Bytes → Bytes) where
  requested-wanted :
      (n : ℕ) (hs : List Bytes) (st : Store S) (k : Known) (waiting : Bool)
      → All Is32 hs
      → Cached w n k st
      → requested (view w st) waiting (tx_entries hs) ≡ tx_entries (wanted k hs)
  requested-wanted n [] st k waiting a r = refl
  requested-wanted n (h ∷ hs) st k waiting (l, a) r = elim (Bool-cases (has_key h k.txs)) [
    | inl e ↦ rw (knows-Cached_tx w n h k st l r, e) (requested-wanted n hs st k waiting a r)
    | inr e ↦
        rw (knows-Cached_tx w n h k st l r, e)
          (ap (λ (es : List Entry). (1, h) ∷ es) (requested-wanted n hs st k waiting a r))
  ]

  inv_slot :
      (dat : Bytes) (c : Client S)
      → invoke (slots w now (codes "inv")) dat (some c)
        ≡ some (on_requests (λ q. (bitcoin_packet_inv (view w q.1) dat q.0, q.1)) c)
  unfolding slots slot lift_slot invoke bytes_eq
  inv_slot dat c = refl

  getdata_slot :
      (dat : Bytes) (c : Client S)
      → invoke (slots w now (codes "getdata")) dat (some c) ≡ some (on_requests (serve w dat) c)
  unfolding slots slot lift_slot invoke bytes_eq
  getdata_slot dat c = refl

  -- Who is offered transactions asks for those that it does not know.
  abbrev pub Asks : ℕ → List Bytes → Known → Client S → Type 0
  Asks n ws k c = (c.fetcher.outbox ≡ packets (codes "getdata") (tx_entries ws)) × Holds w now n k c

  pub offered :
      (n : ℕ) (hs : List Bytes) (c : Client S) (k : Known)
      → hash ≡ double_sha256 w.sha256
      → IsHash (double_sha256 w.sha256)
      → All Is32 hs
      → 36 * length hs < 2 ^ 31 - 33
      → Holds w now n k c
      → Returns
          (Asks n (wanted k hs) k)
          (deliver hash w now ((codes "inv", listing (tx_entries hs)) ∷ []) c)
  offered n hs c k same is_hash a l r =
      let es = tx_entries hs in
      let is_entry = tx_entries-IsEntry hs a in
      let q : Requests = record { block_todl_list = c.fetcher.block_todl_list; outbox = [] } in
      rw
        (
          deliver-invoke_all hash w now ((codes "inv", listing es) ∷ []) c same is_hash
              (listing-IsMessage (codes "inv") hs inv_nonzero (omega arith) a l, tt),
          inv_slot (listing es) (silent c),
        )
        (
          ap (λ (x : Requests). x.outbox)
                (bitcoin_packet_inv-listing (view w c.fetcher.store) es q is_entry
                  (omega (arith, l, length-tx_entries hs)))
              ∙ ap (packets (codes "getdata")) (
                  requested-wanted n hs c.fetcher.store k (is_waiting c.fetcher.block_todl_list) a
                    r),
          r,
        )

  -- Who is asked for transactions that it knows sends them.
  pub asked :
      (n : ℕ) (ws : List Bytes) (c : Client S) (k : Known)
      → hash ≡ double_sha256 w.sha256
      → IsHash (double_sha256 w.sha256)
      → All Is32 ws
      → 36 * length ws < 2 ^ 31 - 33
      → Holds w now n k c
      → missing k ws ≡ []
      → Returns
          (λ c'. c'.fetcher.outbox ≡ found k ws)
          (deliver hash w now (packets (codes "getdata") (tx_entries ws)) c)
  asked n [] c k same is_hash a l r m = rw (deliver-invoke_all hash w now [] c same is_hash tt) refl
  asked n (h ∷ hs) c k same is_hash a l r m =
      let es = tx_entries (h ∷ hs) in
      let q : Requests = record { block_todl_list = c.fetcher.block_todl_list; outbox = [] } in
      rw
        (
          deliver-invoke_all hash w now ((codes "getdata", listing es) ∷ []) c same is_hash
              (listing-IsMessage (codes "getdata") (h ∷ hs) getdata_nonzero (omega arith) a l, tt),
          getdata_slot (listing es) (silent c),
        )
        (ap (λ (x : Requests). x.outbox)
            (serve_listed w (Cached w n k) k (Cached-IsView w n k) (h ∷ hs) q c.fetcher.store r a
              (omega (arith, l))).0
          ∙ ap (λ (x : List Entry). found k (h ∷ hs) ++ packets (codes "notfound") x) m
          ∙ append-nil (found k (h ∷ hs)))

  -- Who receives them learns them.
  pub received :
      (n : ℕ) (ts : List Bytes) (c : Client S) (k : Known)
      → hash ≡ double_sha256 w.sha256
      → IsSha256 w.sha256
      → IsServer w.server
      → All IsTx ts
      → Holds w now (length ts + n) k c
      → Returns
          (Holds w now n (learned w.sha256 ts k))
          (deliver hash w now (map (λ dat. (codes "tx", dat)) ts) c)
  received n ts c k same sha ok h r =
      let ps : List (Bytes × Bytes) = map (λ dat. (codes "tx", dat)) ts in
      let fits : All IsMessage (map message ps) =
        subst (All IsMessage) (sym (messages-tx ts)) (tx_messages-IsMessage ts h) in
      rw
        (
          deliver-invoke_all hash w now ps c same (IsSha256-IsHash w.sha256 sha) fits,
          messages-tx ts,
        )
        (invoke_all-Holds w now n ts (some (silent c)) k ok sha r)
