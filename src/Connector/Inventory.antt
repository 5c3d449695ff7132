-- ===== src/Connector/Inventory.antt =====
-- ModBitcoinConnectorClient: the slots for "inv", "getdata" and "ping", and `newInventory`. What the
-- daemon and its database know is a parameter.
pub mod Entries
pub mod Requests
pub mod Answers
use pinetd.Prelude.{
  ℕ, zero, suc, ◌+◌, ◌*◌, ◌%◌, ◌^◌, ltb, ◌==◌, if◌then◌else◌, ◌&&◌, List, [], ◌∷◌, ◌++◌, Bool, true,
  false, Bytes, codes, length,
}
use pinetd.DataStream.{Reader, ◌>>=◌, ◌>>◌, pure, le_bytes, read_le}
use pinetd.Bitcoin.Stream.{write_int, write_data, read_int, read_data}

-- `ModBitcoinConnector` as its clients see it: `knows` and `getInventory`.
pub record Node : Type 0 where
  pub knows : ℕ → Bytes → Bool
  pub get_inventory : ℕ → Bytes → Bytes

-- The client's list of blocks to fetch, and the types and contents that `sendPacket` was given.
pub record Client : Type 0 where
  pub block_todl_list : List Bytes
  pub outbox : List (Bytes × Bytes)

-- A type and a hash.
abbrev pub Entry : Type 0
Entry = ℕ × Bytes

unfoldable pub read_entry : Reader Entry
read_entry = do type ← read_le 4; hash ← read_data 32; pure (type, hash)

-- `get_buf_w << type` and `writeData`.
unfoldable pub write_entry : Entry → Bytes
write_entry (type, hash) = le_bytes 4 type ++ write_data hash

unfoldable pub write_entries : List Entry → Bytes
unfolding write_entry
write_entries [] = []
write_entries (e ∷ es) = write_entry e ++ write_entries es

-- `pkt.length() < (36*count)`, where the count is a qint64 and the product is cut to 64 bits.
unfoldable pub too_short : ℕ → Bytes → Bool
too_short count pkt =
    let product = (36 * count) % 2 ^ 64 in ltb product (2 ^ 63) && ltb (length pkt) product

-- The rounds of a loop up to a qint64.
unfoldable pub rounds : ℕ → ℕ
rounds count = if ltb count (2 ^ 63) then count else 0

unfoldable pub send_packet : Bytes → Bytes → Client → Client
send_packet type dat c = record c { outbox = c.outbox ++ ((type, dat) ∷ []) }

-- The packet at the end of both slots, if any entry was collected.
unfoldable pub send_entries : Bytes → List Entry → Client → Client
unfolding send_packet write_entries
send_entries type [] c = c
send_entries type (e ∷ es) c =
    send_packet type (write_int (length (e ∷ es)) ++ write_entries (e ∷ es)) c

-- A round of the loop of `bitcoin_packet_inv`, with the entries to ask for.
unfoldable pub inv_entry : Node → Entry → Client × List Entry → Client × List Entry
inv_entry n (type, hash) (c, es) =
    let c' = record c { block_todl_list = c.block_todl_list ++ (hash ∷ []) } in
    if n.knows type hash
    then (c, es)
    else if type == 2
    then (if ltb 1 (length c'.block_todl_list) then (c', es) else (c', es ++ ((type, hash) ∷ [])))
    else (c, es ++ ((type, hash) ∷ []))

unfoldable pub inv_loop : Node → ℕ → Bytes → Client × List Entry → Client × List Entry
unfolding inv_entry
inv_loop n zero s t = t
inv_loop n (suc k) s t = let (e, s') = read_entry s in inv_loop n k s' (inv_entry n e t)

-- `bitcoin_packet_inv`
unfoldable pub bitcoin_packet_inv : Node → Bytes → Client → Client
unfolding inv_loop send_entries too_short rounds
bitcoin_packet_inv n pkt c =
    let (count, s) = read_int pkt in
    let (c', es) = inv_loop n (rounds count) s (c, []) in
    if too_short count pkt then c else send_entries (codes "getdata") es c'

-- The `switch` on the type of an entry that is known.
unfoldable pub send_known : Node → Entry → Client → Client
unfolding send_packet
send_known n (type, hash) c =
    if type == 1
    then send_packet (codes "tx") (n.get_inventory type hash) c
    else if type == 2
    then send_packet (codes "block") (n.get_inventory type hash) c
    else c

-- A round of the loop of `bitcoin_packet_getdata`, with the entries that are not known.
unfoldable pub getdata_entry : Node → Entry → Client × List Entry → Client × List Entry
unfolding send_known
getdata_entry n (type, hash) (c, es) =
    if n.knows type hash then (send_known n (type, hash) c, es) else (c, es ++ ((type, hash) ∷ []))

unfoldable pub getdata_loop : Node → ℕ → Bytes → Client × List Entry → Client × List Entry
unfolding getdata_entry
getdata_loop n zero s t = t
getdata_loop n (suc k) s t = let (e, s') = read_entry s in getdata_loop n k s' (getdata_entry n e t)

-- `bitcoin_packet_getdata`
unfoldable pub bitcoin_packet_getdata : Node → Bytes → Client → Client
unfolding getdata_loop send_entries too_short rounds
bitcoin_packet_getdata n pkt c =
    let (count, s) = read_int pkt in
    let (c', es) = getdata_loop n (rounds count) s (c, []) in
    if too_short count pkt then c else send_entries (codes "notfound") es c'

-- `bitcoin_packet_ping`
unfoldable pub bitcoin_packet_ping : Bytes → Client → Client
unfolding send_packet
bitcoin_packet_ping pkt c = send_packet (codes "pong") pkt c

-- `newInventory`
unfoldable pub new_inventory : ℕ → Bytes → Client → Client
unfolding send_packet
new_inventory cnt dat c = send_packet (codes "inv") (write_int cnt ++ dat) c
