-- ===== src/Connector/Blocks/Locator.antt =====
-- The blocks that `sendGetBlocks` names, by their distance from the last one.
use pinetd.Prelude.{
  ℕ, zero, suc, ◌+◌, ◌≡◌, refl, ap, sym, ◌∙◌, if◌then◌else◌, List, [], ◌∷◌, ◌++◌, map, Bool, true,
  Bytes, codes, bytes_eq, arith, Bool-cases, inl, inr, length, lt→ltb,
}
use pinetd.Bitcoin.Block.{Block}
use pinetd.Connector.Store.Blocks.{World, get_last_block, get_block}
use pinetd.Connector.Blocks.{
  Fetcher, no_hash, walk, locate, locator, getblocks_content, send_packet, send_get_blocks,
  get_one_block, origin_hash,
}

-- The first block of a chain has no parent.
abbrev pub is_first : Block → Bool
is_first b = bytes_eq b.parent no_hash

-- A list up to its first element that passes a test, that one included.
abbrev pub through : {A : Type 0} → (A → Bool) → List A → List A
through f [] = []
through f (x ∷ xs) = x ∷ (if f x then [] else through f xs)

module _ {S : Type 0} (w : World S) (s : S) where
  abbrev pub parent_of : Block → Block
  parent_of b = if is_first b then b else get_block w b.parent s

  -- The ancestor of a block at a distance, or the first block if the chain is shorter.
  abbrev pub ancestor : ℕ → Block → Block
  ancestor zero b = b
  ancestor (suc d) b = parent_of (ancestor d b)

  walk_first : (j : ℕ) (b : Block) → is_first b ≡ true → walk w s j b ≡ b
  unfolding walk
  walk_first zero b e = refl
  walk_first (suc j) b e = rw e refl

  walk-parent_of : (j : ℕ) (b : Block) → walk w s (suc j) b ≡ walk w s j (parent_of b)
  unfolding walk
  walk-parent_of j b = elim (Bool-cases (is_first b)) [
    | inl e ↦ rw e (sym (walk_first j b e))
    | inr e ↦ rw e refl
  ]

  parent_of-walk : (j : ℕ) (b : Block) → walk w s (suc j) b ≡ parent_of (walk w s j b)
  unfolding walk
  parent_of-walk zero b = refl
  parent_of-walk (suc j) b =
      walk-parent_of (suc j) b
      ∙ parent_of-walk j (parent_of b)
      ∙ ap parent_of (sym (walk-parent_of j b))

  walk-ancestor : (i d : ℕ) (b : Block) → walk w s i (ancestor d b) ≡ ancestor (d + i) b
  unfolding walk
  walk-ancestor zero d b = let e : d ≡ d + 0 = omega arith in ap (λ n. ancestor n b) e
  walk-ancestor (suc i) d b =
      let e : suc (d + i) ≡ d + suc i = omega arith in
      parent_of-walk i (ancestor d b)
      ∙ ap parent_of (walk-ancestor i d b)
      ∙ ap (λ n. ancestor n b) e

  -- The distances, each one step larger than the last.
  abbrev pub distances : ℕ → ℕ → ℕ → List ℕ
  distances zero i d = []
  distances (suc n) i d = (d + i) ∷ distances n (suc i) (d + i)

  abbrev pub named : List ℕ → Block → List Bytes
  named ds b = map (λ a. a.hash) (through is_first (map (λ d. ancestor d b) ds))

  locate-named : (n i d : ℕ) (b : Block) → locate w s n i (ancestor d b) ≡ named (distances n i d) b
  unfolding locate
  locate-named zero i d b = refl
  locate-named (suc n) i d b =
      rw (walk-ancestor i d b) (elim (Bool-cases (is_first (ancestor (d + i) b))) [
        | inl e ↦ rw e refl
        | inr e ↦ rw e (
            ap (λ (t : List Bytes). (ancestor (d + i) b).hash ∷ t)
              (locate-named n (suc i) (d + i) b))
      ])

  pub locator-named :
      (b : Block) → locator w s b ≡ b.hash ∷ named (0 ∷ 1 ∷ 3 ∷ 6 ∷ 10 ∷ 15 ∷ 21 ∷ 28 ∷ []) b
  unfolding locator
  locator-named b = ap (λ (t : List Bytes). b.hash ∷ t) (locate-named 8 0 0 b)

  -- The request for more blocks, by the last block that is known.
  abbrev pub request : Block → Bytes × Bytes
  request bl =
      if bl.is_valid
      then (
        codes "getblocks",
        getblocks_content (bl.hash ∷ named (0 ∷ 1 ∷ 3 ∷ 6 ∷ 10 ∷ 15 ∷ 21 ∷ 28 ∷ []) bl),
      )
      else (codes "getdata", get_one_block origin_hash)

abbrev pub requested : {S : Type 0} → World S → List Bytes → Fetcher S → Fetcher S
requested w [] c = record c {
  getblocks_timer = 300000;
  outbox = c.outbox ++ (request w c.store.db (get_last_block w c.store.db) ∷ []);
}
requested w (h ∷ hs) c = c

request_cases :
    {S : Type 0} (w : World S) (hs : List Bytes) (c : Fetcher S)
    → c.block_todl_list ≡ hs
    → send_get_blocks w c ≡ requested w hs c
unfolding send_get_blocks send_packet
request_cases w [] c e = rw e (elim (Bool-cases (get_last_block w c.store.db).is_valid) [
  | inl v ↦ rw v (
      ap
        (λ (t : List Bytes). record c {
          block_todl_list = [];
          getblocks_timer = 300000;
          outbox = c.outbox ++ ((codes "getblocks", getblocks_content t) ∷ []);
        })
        (locator-named w c.store.db (get_last_block w c.store.db)))
  | inr v ↦ rw v refl
])
request_cases w (h ∷ hs) c e = rw (e, lt→ltb 0 (length (h ∷ hs)) (omega arith)) refl

-- `sendGetBlocks` does nothing while blocks are to be fetched. Else it sets the timer to five minutes and sends
-- one request: for the first block if none is known, and else a "getblocks" that names the last block, and then
-- its ancestors at the distances 0, 1, 3, 6, 10, 15, 21 and 28, up to the first block of the chain.
pub send_get_blocks-requested :
    {S : Type 0} (w : World S) (c : Fetcher S)
    → send_get_blocks w c ≡ requested w c.block_todl_list c
send_get_blocks-requested w c = request_cases w c.block_todl_list c refl
