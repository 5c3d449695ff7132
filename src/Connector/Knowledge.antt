-- ===== src/Connector/Knowledge.antt =====
-- What the node knows, as its clients may rely on: tables of transactions and blocks, and what is to be
-- announced, without cache or database. Its code is ModBitcoinConnector.cpp, with `bitcoin_packet_tx`.
pub mod Related
pub mod Steps
pub mod Cached
pub mod Adds
pub mod Refines
use pinetd.Prelude.{
  ℕ, zero, suc, not, if◌then◌else◌, Option, none, some, List, [], ◌∷◌, ◌++◌, Bool, true, false,
  Bytes, codes, Dict, find, has_key, put, has, add, length,
}
use pinetd.Prelude.Fault.{◌>>=◌}
use pinetd.Bitcoin.Tx.{Tx, double_sha256, generate}
use pinetd.Bitcoin.Tx.{hash as tx_hash}
use pinetd.Bitcoin.Block.{Block, get_transactions}
use pinetd.Connector.Store.{
  Store, inventory_key, knows, get_inventory, send_queued_inventory, concat,
}
use pinetd.Connector.Store.Blocks.{World, add_block}
use pinetd.Connector.Blocks.{bitcoin_packet_tx}

-- What is asked of the node.
pub data Event : Type 0 where
  tx : Bytes → Event
  block : Block → Event
  knows_tx : Bytes → Event
  knows_block : Bytes → Event
  fetch_tx : Bytes → Event
  tick : Event

pub data Answer : Type 0 where
  known : Bool → Answer
  content : Bytes → Answer
  announced : ℕ → Bytes → Answer

abbrev pub announcement : Option (ℕ × Bytes) → List Answer
announcement none = []
announcement (some (n, keys)) = announced n keys ∷ []

-- The code's answers, call by call.
module _ {S : Type 0} (w : World S) where
  abbrev pub step : Event → Store S → Option (List Answer × Store S)
  step (tx dat) st = do st' ← bitcoin_packet_tx w dat st; some ([], st')
  step (block b) st = do st' ← add_block w b st; some ([], st')
  step (knows_tx h) st = some (known (knows w.server 1 h st) ∷ [], st)
  step (knows_block h) st = some (known (knows w.server 2 h st) ∷ [], st)
  step (fetch_tx h) st =
      let (dat, st') = get_inventory w.server 1 h st in some (content dat ∷ [], st')
  step tick st = let (o, st') = send_queued_inventory st in some (announcement o, st')

  abbrev pub run : List Event → Store S → Option (List Answer)
  run [] st = some []
  run (e ∷ es) st = do (out, st') ← step e st; outs ← run es st'; some (out ++ outs)

-- The abstract node.
pub record Known : Type 0 where
  pub txs : Dict Bytes
  pub blocks : List Bytes
  pub pending : List Bytes

unfoldable pub learn_tx : Bytes → Bytes → Known → Known
learn_tx h dat k = if has_key h k.txs then k else record k { txs = put h dat k.txs }

module _ (sha256 : Bytes → Bytes) where
  unfoldable pub learn_txs : List Tx → Known → Known
  unfolding learn_tx
  learn_txs [] k = k
  learn_txs (t ∷ ts) k = learn_txs ts (learn_tx (tx_hash sha256 t).0 (generate t).0 k)

  abbrev pub learn : Event → Known → List Answer × Known
  learn (tx dat) k =
      let h = double_sha256 sha256 dat in
      (
        [],
        if has_key h k.txs then k else record k {
          txs = put h dat k.txs;
          pending = k.pending ++ (inventory_key 1 h ∷ []);
        },
      )
  learn (block b) k =
      let k' = learn_txs (get_transactions b) k in
      (
        [],
        if not b.is_valid then k else record k' {
          blocks = add b.hash k'.blocks;
          pending = k'.pending ++ (inventory_key 2 b.hash ∷ []);
        },
      )
  learn (knows_tx h) k = (known (has_key h k.txs) ∷ [], k)
  learn (knows_block h) k = (known (has h k.blocks) ∷ [], k)
  learn (fetch_tx h) k = (content (elim (find h k.txs) [ none ↦ [] | some v ↦ v ]) ∷ [], k)
  learn tick k = elim k.pending [
    | [] ↦ ([], k)
    | p ∷ ps ↦ (announced (length (p ∷ ps)) (concat (p ∷ ps)) ∷ [], record k { pending = [] })
  ]

  abbrev pub answers : List Event → Known → List Answer
  answers [] k = []
  answers (e ∷ es) k = let (out, k') = learn e k in out ++ answers es k'
