-- ===== src/Connector/Knowledge/Related.antt =====
-- How the cache and the database hold what the abstract node knows.
use pinetd.Prelude.{
  ◌≡◌, refl, ◌∙◌, if◌then◌else◌, Option, none, some, List, Bool, true, false, Bytes, codes, Dict,
  find, has_key, put, find-put, has_key-find, has, add, bytes_eq, bytes_eq_iff, arith,
}
use pinetd.Prelude.Base64.{from_base64}
use pinetd.DataStream.{le_bytes}
use pinetd.Bitcoin.Block.{to_hex}
use pinetd.ElasticSearch.{Object, Server, value, contains_key, to_string}
use pinetd.Connector.Store.{inventory_key, cache_insert}
use pinetd.Connector.Store.Cache.{find-cache_insert}
use pinetd.Connector.Store.Tables.{has_tx, has_block, get_tx}

-- What a cached entry holds is known.
pub record Coherent (cache txs : Dict Bytes) (blocks : List Bytes) : Type 0 where
  pub tx : (h v : Bytes) → find (inventory_key 1 h) cache ≡ some v → find h txs ≡ some v
  pub block : (h v : Bytes) → find (inventory_key 2 h) cache ≡ some v → has h blocks ≡ true

abbrev pub raw : Object → Bytes
raw o = from_base64 (to_string (value (codes "raw_data") o))

-- A document that holds a transaction's bytes, or none.
abbrev pub IsDoc : Option Bytes → Object → Type 0
IsDoc none o = contains_key (codes "raw_data") o ≡ false
IsDoc (some v) o = (contains_key (codes "raw_data") o ≡ true) × (raw o ≡ v)

-- What is known is in the database.
pub record Backed {S : Type 0} (server : Server S) (s : S) (txs : Dict Bytes) (blocks : List Bytes)
    : Type 0 where
  pub tx : (h : Bytes) → has_tx server (to_hex h) s ≡ has_key h txs
  pub doc : (h : Bytes) → IsDoc (find h txs) (get_tx server (to_hex h) s)
  pub block : (h : Bytes) → has_block server (to_hex h) s ≡ has h blocks

pub has_key-put :
    (k j v : Bytes) (m : Dict Bytes)
    → has_key j (put k v m) ≡ (if bytes_eq k j then true else has_key j m)
has_key-put k j v m =
    has_key-find j (put k v m)
    ∙ rw (find-put k j v m, has_key-find j m)
        (elim (bytes_eq k j)
          as (λ b.
            (elim (if b then some v else find j m) as (λ o. Bool) [ none ↦ false | some w ↦ true ])
            ≡ (if b
                then true
                else (elim (find j m) as (λ o. Bool) [ none ↦ false | some w ↦ true ]))) [
                  | true ↦ refl
                  | false ↦ refl
                ])

pub has_added :
    (a b : Bytes) (xs : List Bytes) → has b (add a xs) ≡ (if bytes_eq a b then true else has b xs)
unfolding add has
has_added a b xs = ground (arith, bytes_eq_iff a b)

-- The keys of transactions and of blocks differ.
pub tx_keys : (h j : Bytes) → bytes_eq (inventory_key 1 h) (inventory_key 1 j) ≡ bytes_eq h j
unfolding inventory_key le_bytes bytes_eq
tx_keys h j = refl

pub block_keys : (h j : Bytes) → bytes_eq (inventory_key 2 h) (inventory_key 2 j) ≡ bytes_eq h j
unfolding inventory_key le_bytes bytes_eq
block_keys h j = refl

pub tx_block_keys : (h j : Bytes) → bytes_eq (inventory_key 1 h) (inventory_key 2 j) ≡ false
unfolding inventory_key le_bytes bytes_eq
tx_block_keys h j = refl

pub block_tx_keys : (h j : Bytes) → bytes_eq (inventory_key 2 h) (inventory_key 1 j) ≡ false
unfolding inventory_key le_bytes bytes_eq
block_tx_keys h j = refl

module _ {m txs : Dict Bytes} {blocks : List Bytes} (c : Coherent m txs blocks) where
  pub insert_tx-Coherent :
      (h v : Bytes)
      → find h txs ≡ some v
      → Coherent (cache_insert (inventory_key 1 h) v m) txs blocks
  insert_tx-Coherent h v e = record {
    tx = λ j w p.
        (let q =
            rw (tx_keys h j) at
              (find-cache_insert (inventory_key 1 h) (inventory_key 1 j) v w m p) in
          ground (arith, q, e, c.tx j w, bytes_eq_iff h j));
    block = λ j w p. c.block j w (
        rw (tx_block_keys h j) at
          (find-cache_insert (inventory_key 1 h) (inventory_key 2 j) v w m p));
  }
