-- ===== src/Tests/Node.antt =====
-- Runs of the Bitcoin connector's node, on a server that keeps documents in a map.
use pinetd.Prelude.{
  ℕ, ◌%◌, ◌≢◌, length, sym, ne-bytes_eq, ◌≡◌, refl, ap, ◌∙◌, Option, none, some, List, [], ◌∷◌,
  ◌++◌, true, false, Bytes, codes, Dict, find, put, find-put, has_key, has, add, bytes_eq,
  replicate, All, arith,
}
use pinetd.Prelude.Fault.{Returns}
use pinetd.Prelude.Base64.{to_base64}
use pinetd.DataStream.{le_bytes}
use pinetd.Bitcoin.Block.{Block, get_transactions}
use pinetd.Bitcoin.Tx.{is_empty, double_sha256}
use pinetd.ElasticSearch.{
  path, Object, undefined, double, string, object, array, empty, end, item, object_of, Reply,
  Server, no_error, content_not_found, is_found, contains_key, contains, get,
}
use pinetd.ElasticSearch.Documents.{IsServer}
use pinetd.Bitcoin.Block.{to_hex, hex_digit}
use pinetd.Connector.Knowledge.Adds.{IsSha256}
use pinetd.Connector.Store.{Store, knows, inventory_key, concat}
use pinetd.Connector.Store.Blocks.{World}
use pinetd.Connector.Blocks.{Fetcher, send_get_blocks}
use pinetd.Connector.Blocks.Locator.{requested, send_get_blocks-requested}
use pinetd.Connector.Blocks.Download.{receive_blocks, IsDone, receive_blocks-IsDone}
use pinetd.Connector.Knowledge.{
  Event, tx, block, knows_tx, knows_block, fetch_tx, tick, known, content, announced, run,
  learn_txs,
}
use pinetd.Connector.Nested.{comes, goes_on, run_nested}
use pinetd.Connector.Nested.{run as run_calls}
use pinetd.Connector.Knowledge.Refines.{IsEvent, IsFresh, run-answers}

abbrev found : Option Object → Reply
found none = record { error = content_not_found; body = undefined }
found (some o) = record {
  error = no_error;
  body = object (object_of ((codes "_source", object o) ∷ []) empty);
}

-- A document is stored under an identifier that ends with a character that no digit is.
abbrev new_id : Dict Object → Bytes
new_id s = replicate (length s) 95 ++ (95 ∷ [])

abbrev pub server : Server (Dict Object)
server = record {
  head = λ q s. found (find q s);
  get = λ q s. found (find q s);
  post = λ p o s. (found none, put (p ++ new_id s) o s);
  search = λ q o s. found none;
}

abbrev last_of : ℕ → Bytes → ℕ
last_of d [] = d
last_of d (x ∷ xs) = last_of x xs

last_of-append : (d : ℕ) (xs ys : Bytes) → last_of d (xs ++ ys) ≡ last_of (last_of d xs) ys
last_of-append d [] ys = refl
last_of-append d (x ∷ xs) ys = last_of-append x xs ys

hex_digit_ne : (n : ℕ) → hex_digit n ≢ 95
unfolding hex_digit
hex_digit_ne n e = ground (arith, e)

last_of-to_hex : (d : ℕ) (h : Bytes) → d ≢ 95 → last_of d (to_hex h) ≢ 95
unfolding to_hex
last_of-to_hex d [] n = n
last_of-to_hex d (b ∷ bs) n = last_of-to_hex (hex_digit (b % 16)) bs (hex_digit_ne (b % 16))

-- The path of a hash ends with a digit.
last_of-path : (ix type h : Bytes) → last_of 0 (path ix type (to_hex h)) ≢ 95
unfolding path
last_of-path ix type h e =
    last_of-to_hex 47 h (λ t. omega (arith, t))
      (sym (
          last_of-append 47 ix (47 ∷ (type ++ (47 ∷ to_hex h)))
          ∙ last_of-append 47 type (47 ∷ to_hex h))
        ∙ e)

pub server-IsServer : IsServer server
server-IsServer = record {
  post_get = λ ix type ix' type' h o s l.
      (let key = path ix type [] ++ new_id s in
        let q = path ix' type' (to_hex h) in
        let other : key ≢ q = λ e. last_of-path ix' type' h (
          ap (last_of 0) (sym e)
          ∙ last_of-append 0 (path ix type []) (new_id s)
          ∙ last_of-append (last_of 0 (path ix type [])) (replicate (length s) 95) (95 ∷ [])) in
        ap found (find-put key q o s ∙ rw (ne-bytes_eq key q other) refl));
  head_error = λ q s. refl;
}

-- In the place of the hash, the first byte and 31 others.
abbrev pub toy_hash : Bytes → Bytes
toy_hash [] = replicate 32 0
toy_hash (b ∷ bs) = b ∷ replicate 31 0

pub toy_hash-IsSha256 : IsSha256 toy_hash
unfolding double_sha256
toy_hash-IsSha256 [] = omega arith
toy_hash-IsSha256 (b ∷ bs) = omega arith

abbrev junk : Block
junk = record {
  is_valid = false;
  hash = [];
  parent = [];
  merkle_root = [];
  raw = [];
  txns = [];
  version = 0;
  timestamp = 0;
  bits = 0;
  nonce = 0;
  height = 7;
  size = 0;
}

abbrev pub world : World (Dict Object)
world = record { server = server; sha256 = toy_hash; junk = junk }

abbrev pub fresh : Store (Dict Object)
fresh = record { inventory_cache = []; inventory_queue = []; db = [] }

pub fresh-IsFresh : IsFresh world fresh
unfolding contains get is_found find contains_key
fresh-IsFresh = record {
  cache = refl;
  queue = refl;
  no_tx = λ h l. refl;
  no_doc = λ h l. refl;
  no_block = λ h l. refl;
}

abbrev first_block : Block
first_block = record junk { is_valid = true; hash = 5 ∷ replicate 31 0; raw = replicate 80 5 }

-- A transaction that is sent twice, a block, and what they leave.
abbrev events : List Event
events =
    knows_tx (1 ∷ replicate 31 0)
    ∷ tx (1 ∷ 2 ∷ 3 ∷ [])
    ∷ tx (1 ∷ 2 ∷ 3 ∷ [])
    ∷ block first_block
    ∷ knows_block (5 ∷ replicate 31 0)
    ∷ fetch_tx (1 ∷ replicate 31 0)
    ∷ tick
    ∷ tick
    ∷ []

events-IsEvent : All IsEvent events
events-IsEvent = (refl, (tt, (tt, (tt, (refl, (refl, (tt, (tt, tt))))))))

run-answers_example :
    run world events fresh
    ≡ some (
        known false
        ∷ known true
        ∷ content (1 ∷ 2 ∷ 3 ∷ [])
        ∷ announced 2 (1 ∷ 0 ∷ 0 ∷ 0 ∷ 1 ∷ (replicate 31 0 ++ (2 ∷ 0 ∷ 0 ∷ 0 ∷ 5 ∷ replicate 31 0)))
        ∷ [])
unfolding has_key find put add has inventory_key le_bytes concat learn_txs get_transactions bytes_eq
    is_empty double_sha256
run-answers_example =
    run-answers world events fresh server-IsServer toy_hash-IsSha256 fresh-IsFresh events-IsEvent
      (omega arith)

-- A database whose searches find the first block of a chain.
abbrev first_doc : Object
first_doc =
    object_of
      ((codes "depth", double 9)
        ∷ (codes "raw_header", string (to_base64 (1 ∷ replicate 79 0)))
        ∷ [])
      empty

abbrev hits : Object
hits = object_of ((codes "_source", object first_doc) ∷ []) empty

abbrev search_result : Object
search_result =
    object_of
      ((
        codes "hits",
        object (object_of ((codes "hits", array (item (object hits) end)) ∷ []) empty),
      )
        ∷ [])
      empty

abbrev chain : World (Dict Object)
chain = record world {
  server = record server {
    search = λ q o s. record { error = no_error; body = object search_result };
  };
}

abbrev idle : Fetcher (Dict Object)
idle = record { block_todl_list = []; getblocks_timer = 5000; outbox = []; store = fresh }

send_get_blocks-requested_example : send_get_blocks chain idle ≡ requested chain [] idle
send_get_blocks-requested_example = send_get_blocks-requested chain idle

-- Two blocks are to be fetched, and an orphan comes each time.
abbrev busy : Fetcher (Dict Object)
busy = record idle { block_todl_list = (1 ∷ []) ∷ (2 ∷ []) ∷ [] }

receive_blocks-IsDone_example :
    Returns (IsDone world) (receive_blocks world ((7 ∷ []) ∷ (8 ∷ []) ∷ (9 ∷ []) ∷ []) busy)
receive_blocks-IsDone_example =
    receive_blocks-IsDone world ((7 ∷ []) ∷ (8 ∷ []) ∷ (9 ∷ []) ∷ []) busy (omega arith)

-- Two clients send a transaction at once.
run_nested_example :
    Returns
      (λ q.
        (q.0.inventory_queue
          ≡ (1 ∷ 0 ∷ 0 ∷ 0 ∷ 1 ∷ replicate 31 0) ∷ (1 ∷ 0 ∷ 0 ∷ 0 ∷ 1 ∷ replicate 31 0) ∷ [])
        × (q.1 ≡ []))
      (run_calls world
        (comes (1 ∷ 2 ∷ 3 ∷ []) ∷ comes (1 ∷ 2 ∷ 3 ∷ []) ∷ goes_on ∷ goes_on ∷ [])
        (fresh, []))
unfolding inventory_key le_bytes double_sha256 find knows has_key
run_nested_example = run_nested world 2 (1 ∷ 2 ∷ 3 ∷ []) fresh [] refl
