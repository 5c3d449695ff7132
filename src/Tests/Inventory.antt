-- ===== src/Tests/Inventory.antt =====
-- A run of the slot for "inv".
use pinetd.Prelude.{ℕ, ◌≡◌, refl, List, [], ◌∷◌, All, codes, replicate, bytes_eq, arith}
use pinetd.Connector.Inventory.{Node, Client, Entry, bitcoin_packet_inv}
use pinetd.Connector.Inventory.Entries.{IsEntry, listing, packets}
use pinetd.Connector.Inventory.Requests.{bitcoin_packet_inv-listing}

-- Only the entry of all ones is known.
abbrev node : Node
node = record {
  knows = λ type hash. bytes_eq hash (replicate 32 1);
  get_inventory = λ type hash. 9 ∷ [];
}

abbrev client : Client
client = record { block_todl_list = []; outbox = [] }

abbrev block : ℕ → Entry
block b = (2, replicate 32 b)

-- A known block, two that are not known, and a transaction.
abbrev entries : List Entry
entries = block 1 ∷ block 3 ∷ block 4 ∷ (1, replicate 32 5) ∷ []

entries-IsEntry : All IsEntry entries
entries-IsEntry =
    ((omega arith, refl), ((omega arith, refl), ((omega arith, refl), ((omega arith, refl), tt))))

bitcoin_packet_inv-listing_example : bitcoin_packet_inv node (listing entries) client ≡ record {
  block_todl_list = replicate 32 3 ∷ replicate 32 4 ∷ [];
  outbox = packets (codes "getdata") (block 3 ∷ (1, replicate 32 5) ∷ []);
}
unfolding bytes_eq
bitcoin_packet_inv-listing_example =
    bitcoin_packet_inv-listing node entries client entries-IsEntry (omega arith)
