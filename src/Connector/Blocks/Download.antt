-- ===== src/Connector/Blocks/Download.antt =====
-- The list of blocks to fetch runs empty.
use pinetd.Prelude.{
  ℕ, suc, ◌+◌, ◌<◌, ◌≡◌, refl, ap, not, if◌then◌else◌, Option, some, List, [], ◌∷◌, Bool, true,
  false, Bytes, arith, Bool-cases, ◌⊎◌, inl, inr, length, bytes_eq, ◌&&◌, ◌%◌, ◌^◌,
}
use pinetd.Prelude.Fault.{◌>>=◌, Returns, Returns-bind}
use pinetd.Bitcoin.Tx.{Tx}
use pinetd.Bitcoin.Tx.{hash as tx_hash}
use pinetd.Bitcoin.Block.{Block, block_of_data, get_transactions, set_height}
use pinetd.Connector.Store.{Store, knows, add_inventory}
use pinetd.Connector.Store.Blocks.{
  World, get_block, add_block_tx, add_block_txs, add_block_header, add_block,
}
use pinetd.Connector.Blocks.{Fetcher, no_hash, store_block, fetch_next, bitcoin_packet_block}

abbrev Ends : {A : Type 0} → Option A → Type 0
Ends m = Returns (λ a. Unit {0}) m

module _ {S : Type 0} (w : World S) where
  -- Blocks are stored without an abort.
  add_block_tx-Ends : (h : Bytes) (i : ℕ) (t : Tx) (st : Store S) → Ends (add_block_tx w h i t st)
  unfolding add_block_tx add_inventory
  add_block_tx-Ends h i t st = elim (Bool-cases (knows w.server 1 (tx_hash w.sha256 t).0 st)) [
    | inl e ↦ rw e tt
    | inr e ↦ rw e tt
  ]

  add_block_txs-Ends :
      (h : Bytes) (i : ℕ) (ts : List Tx) (st : Store S) → Ends (add_block_txs w h i ts st)
  unfolding add_block_txs
  add_block_txs-Ends h i [] st = tt
  add_block_txs-Ends h i (t ∷ ts) st =
      Returns-bind (λ a. Unit {0}) (λ a. Unit {0}) (add_block_tx w h i t st)
        (add_block_txs w h (suc i) ts) (add_block_tx-Ends h i t st)
        (λ st' u. add_block_txs-Ends h (suc i) ts st')

  add_block-Ends : (b : Block) (st : Store S) → Ends (add_block w b st)
  unfolding add_block
  add_block-Ends b st = elim (Bool-cases b.is_valid) [
    | inl e ↦ rw e (
        Returns-bind (λ a. Unit {0}) (λ a. Unit {0})
          (add_block_txs w b.hash 0 (get_transactions b) st)
          (λ st'. some (add_block_header w b st'))
          (add_block_txs-Ends b.hash 0 (get_transactions b) st) (λ st' u. tt))
    | inr e ↦ rw e tt
  ]

  Ends-if :
      {A : Type 0} (b : Bool) (m m' : Option A) → Ends m → Ends m' → Ends (if b then m else m')
  Ends-if true m m' e e' = e
  Ends-if false m m' e e' = e'

  store_block-Ends : (block : Bytes) (st : Store S) → Ends (store_block w block st)
  unfolding store_block
  store_block-Ends block st =
      let bl = block_of_data w.sha256 block 0 in
      let pbl = get_block w bl.parent st.db in
      let bl' = if pbl.is_valid then set_height ((pbl.height + 1) % 2 ^ 32) bl else bl in
      Ends-if (not pbl.is_valid && not (bytes_eq bl.parent no_hash)) (some st)
        (if not (knows w.server 2 bl.hash st) then add_block w bl' st else some st) tt
        (Ends-if (not (knows w.server 2 bl.hash st)) (add_block w bl' st) (some st)
          (add_block-Ends bl' st) tt)

  -- Nothing is to be fetched, and the timer asks for more blocks in a second.
  abbrev pub IsDone : Fetcher S → Type 0
  IsDone c = (c.block_todl_list ≡ []) × (c.getblocks_timer ≡ 1000)

  -- A round of the download shortens the list, or finds nothing more to fetch.
  fetch_next_cases :
      (hs : List Bytes) (c : Fetcher S)
      → IsDone (fetch_next w hs c) ⊎ (length (fetch_next w hs c).block_todl_list < length hs)
  unfolding fetch_next
  fetch_next_cases [] c = inl (refl, refl)
  fetch_next_cases (h ∷ hs) c = elim (Bool-cases (knows w.server 2 h c.store)) [
    | inl e ↦ rw e (elim (fetch_next_cases hs c) [ inl d ↦ inl d | inr l ↦ inr (omega (arith, l)) ])
    | inr e ↦ rw e (inr (omega arith))
  ]

  -- What the peer sends as blocks, one after the other.
  abbrev pub receive_blocks : List Bytes → Fetcher S → Option (Fetcher S)
  receive_blocks [] c = some c
  receive_blocks (b ∷ bs) c = do c' ← bitcoin_packet_block w b c; receive_blocks bs c'

  packet_block_cases :
      (b : Bytes) (c : Fetcher S)
      → Returns
          (λ c'. IsDone c' ⊎ (length c'.block_todl_list < length c.block_todl_list))
          (bitcoin_packet_block w b c)
  unfolding bitcoin_packet_block
  packet_block_cases b c =
      Returns-bind (λ st. Unit {0})
        (λ c'. IsDone c' ⊎ (length c'.block_todl_list < length c.block_todl_list))
        (store_block w b c.store)
        (λ st. some (fetch_next w c.block_todl_list (record c { store = st })))
        (store_block-Ends b c.store)
        (λ st u. fetch_next_cases c.block_todl_list (record c { store = st }))

  -- Rounds enough for the list, or nothing left already.
  after_blocks :
      (bs : List Bytes) (c : Fetcher S)
      → IsDone c ⊎ (length c.block_todl_list < length bs)
      → Returns IsDone (receive_blocks bs c)
  after_blocks [] c (inl d) = d
  after_blocks [] c (inr l) = absurd (omega (arith, l))
  after_blocks (b ∷ bs) c x =
      Returns-bind (λ c'. IsDone c' ⊎ (length c'.block_todl_list < length c.block_todl_list)) IsDone
        (bitcoin_packet_block w b c) (receive_blocks bs) (packet_block_cases b c)
        (λ c' y. after_blocks bs c' (elim y [
          | inl d ↦ inl d
          | inr k ↦ elim x [
            | inl d ↦ absurd (omega (arith, k, ap length d.0))
            | inr l ↦ inr (omega (arith, k, l))
          ]
        ]))

-- Whatever a peer sends as blocks, orphans and known ones too, the slot never aborts, and after more of them than
-- blocks were to be fetched nothing is left to fetch, and the timer asks for more in a second.
pub receive_blocks-IsDone :
    {S : Type 0} (w : World S) (bs : List Bytes) (c : Fetcher S)
    → length c.block_todl_list < length bs
    → Returns (IsDone w) (receive_blocks w bs c)
receive_blocks-IsDone w bs c l = after_blocks w bs c (inr l)
