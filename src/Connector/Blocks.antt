-- ===== src/Connector/Blocks.antt =====
-- ModBitcoinConnectorClient: the slots for "tx", "block" and "addr", and `sendGetBlocks`, on the client's list of
-- blocks to fetch and its timer, with what the node knows.
pub mod Locator
pub mod Download
use pinetd.Prelude.{
  ℕ, zero, suc, ◌+◌, ◌*◌, ◌%◌, ◌^◌, ltb, not, ◌&&◌, if◌then◌else◌, Option, some, List, [], ◌∷◌,
  ◌++◌, Bool, true, Bytes, codes, bytes_eq, replicate, length,
}
use pinetd.Prelude.Fault.{◌>>=◌}
use pinetd.DataStream.{le_bytes, read_le}
use pinetd.Bitcoin.Stream.{write_int, write_data, read_int}
use pinetd.Bitcoin.Tx.{double_sha256}
use pinetd.Bitcoin.NetAddr.{NetAddr, read_address}
use pinetd.Bitcoin.Block.{Block, block_of_data, set_height}
use pinetd.Connector.Inventory.{rounds}
use pinetd.Connector.Store.{Store, knows, add_inventory, concat}
use pinetd.Connector.Store.Blocks.{World, get_last_block, get_block, add_block}

-- A client of the daemon, and the node's store. The timer holds its interval, in milliseconds.
pub record Fetcher (S : Type 0) : Type 0 where
  pub block_todl_list : List Bytes
  pub getblocks_timer : ℕ
  pub outbox : List (Bytes × Bytes)
  pub store : Store S

-- `QByteArray(32, '\0')`
abbrev pub no_hash : Bytes
no_hash = replicate 32 0

-- The hash of the first block, as `sendGetBlocks` spells it.
abbrev pub origin_hash : Bytes
origin_hash =
    0x6f ∷ 0xe2 ∷ 0x8c ∷ 0x0a ∷ 0xb6 ∷ 0xf1 ∷ 0xb3 ∷ 0x72 ∷ 0xc1 ∷ 0xa6 ∷ 0xa2 ∷ 0x46 ∷ 0xae ∷ 0x63
    ∷ 0xf7 ∷ 0x4f ∷ 0x93 ∷ 0x1e ∷ 0x83 ∷ 0x65 ∷ 0xe1 ∷ 0x5a ∷ 0x08 ∷ 0x9c ∷ 0x68 ∷ 0xd6 ∷ 0x19 ∷ 0
    ∷ 0 ∷ 0 ∷ 0 ∷ 0 ∷ []

-- The content of a "getdata" for one block.
unfoldable pub get_one_block : Bytes → Bytes
get_one_block hash = write_int 1 ++ (le_bytes 4 2 ++ write_data hash)

unfoldable pub send_packet : {S : Type 0} → Bytes → Bytes → Fetcher S → Fetcher S
send_packet type dat c = record c { outbox = c.outbox ++ ((type, dat) ∷ []) }

-- The content of "getblocks".
unfoldable pub getblocks_content : List Bytes → Bytes
unfolding concat
getblocks_content info =
    le_bytes 4 1 ++ (write_int (length info) ++ (concat info ++ write_data no_hash))

module _ {S : Type 0} (w : World S) where
  -- `bitcoin_packet_tx`
  unfoldable pub bitcoin_packet_tx : Bytes → Store S → Option (Store S)
  unfolding double_sha256 knows add_inventory
  bitcoin_packet_tx tx st =
      if knows w.server 1 (double_sha256 w.sha256 tx) st
      then some st
      else add_inventory w.server 1 (double_sha256 w.sha256 tx) tx true st

  -- The first half of `bitcoin_packet_block`: a block is stored unless its parent is missing.
  unfoldable pub store_block : Bytes → Store S → Option (Store S)
  unfolding block_of_data get_block set_height knows add_block
  store_block block st =
      let bl = block_of_data w.sha256 block 0 in
      let pbl = get_block w bl.parent st.db in
      let bl' = if pbl.is_valid then set_height ((pbl.height + 1) % 2 ^ 32) bl else bl in
      if not pbl.is_valid && not (bytes_eq bl.parent no_hash)
      then some st
      else if not (knows w.server 2 bl.hash st)
      then add_block w bl' st
      else some st

  -- The loop of `bitcoin_packet_block`: ask for the next block that is not known.
  unfoldable pub fetch_next : List Bytes → Fetcher S → Fetcher S
  unfolding knows send_packet get_one_block
  fetch_next [] c = record c { block_todl_list = []; getblocks_timer = 1000 }
  fetch_next (blid ∷ rest) c =
      let next = fetch_next rest c in
      if knows w.server 2 blid c.store
      then next
      else send_packet (codes "getdata") (get_one_block blid) (record c { block_todl_list = rest })

  -- `bitcoin_packet_block`
  unfoldable pub bitcoin_packet_block : Bytes → Fetcher S → Option (Fetcher S)
  unfolding store_block fetch_next
  bitcoin_packet_block block c = do
    st ← store_block block c.store
    some (fetch_next c.block_todl_list (record c { store = st }))

  -- The inner loop of `sendGetBlocks`: some steps back along the chain.
  unfoldable pub walk : S → ℕ → Block → Block
  unfolding get_block
  walk s zero cur = cur
  walk s (suc j) cur =
      let next = walk s j (get_block w cur.parent s) in
      if bytes_eq cur.parent no_hash then cur else next

  -- The outer loop, with n rounds left.
  unfoldable pub locate : S → ℕ → ℕ → Block → List Bytes
  unfolding walk
  locate s zero i cur = []
  locate s (suc n) i cur =
      let cur' = walk s i cur in
      let rest = locate s n (suc i) cur' in
      cur'.hash ∷ (if bytes_eq cur'.parent no_hash then [] else rest)

  unfoldable pub locator : S → Block → List Bytes
  unfolding locate
  locator s bl = bl.hash ∷ locate s 8 0 bl

  -- `sendGetBlocks`
  unfoldable pub send_get_blocks : Fetcher S → Fetcher S
  unfolding get_last_block locator getblocks_content send_packet get_one_block
  send_get_blocks c =
      let c' = record c { getblocks_timer = 300000 } in
      let bl = get_last_block w c.store.db in
      if ltb 0 (length c.block_todl_list)
      then c
      else if not bl.is_valid
      then send_packet (codes "getdata") (get_one_block origin_hash) c'
      else send_packet (codes "getblocks") (getblocks_content (locator c.store.db bl)) c'

-- `pkt.length() < (30*count)`, with the product cut to 64 bits.
unfoldable pub too_short_addr : ℕ → Bytes → Bool
too_short_addr count pkt =
    let product = (30 * count) % 2 ^ 64 in ltb product (2 ^ 63) && ltb (length pkt) product

-- `registerPeer(BitcoinNetAddr, quint32)`: the peer that is written to the log; nothing else is done.
unfoldable pub register_peer : ℕ → NetAddr → ℕ → NetAddr × ℕ
register_peer now a stamp = (a, if ltb now stamp then now else stamp)

-- The loop of `bitcoin_packet_addr`. An address starts with two numbers that are not initialised.
unfoldable pub addr_loop : (ℕ × ℕ) → ℕ → ℕ → Bytes → List (NetAddr × ℕ)
unfolding register_peer read_address
addr_loop (port, services) now zero s = []
addr_loop (port, services) now (suc n) s =
    let (stamp, s') = read_le 4 s in
    let (a, s'') = read_address port services s' in
    register_peer now a stamp ∷ addr_loop (port, services) now n s''

-- `bitcoin_packet_addr`, with the peers that it registers.
unfoldable pub bitcoin_packet_addr : (ℕ × ℕ) → ℕ → Bytes → List (NetAddr × ℕ)
unfolding addr_loop too_short_addr rounds
bitcoin_packet_addr junk now pkt =
    let (count, s) = read_int pkt in
    if too_short_addr count pkt then [] else addr_loop junk now (rounds count) s
