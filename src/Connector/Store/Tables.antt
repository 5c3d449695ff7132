-- ===== src/Connector/Store/Tables.antt =====
-- The database's tables of transactions and blocks, and what the calls of `index` change of them.
use pinetd.Prelude.{ℕ, suc, ◌≡◌, refl, ◌∙◌, List, [], ◌∷◌, Bool, Bytes, codes, length}
use pinetd.Bitcoin.Tx.{TxIn, TxOut, tx_of_data}
use pinetd.Bitcoin.Block.{to_hex}
use pinetd.ElasticSearch.{Object, Server, contains, get, index}
use pinetd.ElasticSearch.Documents.{IsServer, contains-index, get-index}
use pinetd.Connector.Store.{
  bitcoin, tx_doc, tx_in_doc, tx_out_doc, index_tx_in, index_tx_out, index_tx,
}

module _ {S : Type 0} (server : Server S) where
  abbrev pub has_tx : Bytes → S → Bool
  has_tx id s = contains server id bitcoin (codes "tx") s

  abbrev pub has_block : Bytes → S → Bool
  has_block id s = contains server id bitcoin (codes "block") s

  abbrev pub get_tx : Bytes → S → Object
  get_tx id s = get server id bitcoin (codes "tx") s

  -- What is found under the hashes is as it was.
  pub record Untouched (s s' : S) : Type 0 where
    pub tx : (h : Bytes) → length h ≡ 32 → has_tx (to_hex h) s' ≡ has_tx (to_hex h) s
    pub doc : (h : Bytes) → length h ≡ 32 → get_tx (to_hex h) s' ≡ get_tx (to_hex h) s
    pub block : (h : Bytes) → length h ≡ 32 → has_block (to_hex h) s' ≡ has_block (to_hex h) s

  Untouched-trans : {s s' s'' : S} → Untouched s s' → Untouched s' s'' → Untouched s s''
  Untouched-trans u v = record {
    tx = λ h l. v.tx h l ∙ u.tx h l;
    doc = λ h l. v.doc h l ∙ u.doc h l;
    block = λ h l. v.block h l ∙ u.block h l;
  }

module _ {S : Type 0} (server : Server S) (ok : IsServer server) where
  pub index-Untouched :
      (o : Object) (type : Bytes) (s : S) → Untouched server s (index server o bitcoin type s).1
  index-Untouched o type s = record {
    tx = λ h l. contains-index server ok o bitcoin type bitcoin (codes "tx") h s l;
    doc = λ h l. get-index server ok o bitcoin type bitcoin (codes "tx") h s l;
    block = λ h l. contains-index server ok o bitcoin type bitcoin (codes "block") h s l;
  }

  index_tx_in-Untouched :
      (h : Bytes) (i : ℕ) (xs : List TxIn) (s : S)
      → Untouched server s (index_tx_in server h i xs s)
  unfolding index_tx_in
  index_tx_in-Untouched h i [] s = record {
    tx = λ j l. refl;
    doc = λ j l. refl;
    block = λ j l. refl;
  }
  index_tx_in-Untouched h i (x ∷ xs) s =
      let s' = (index server (tx_in_doc h i x) bitcoin (codes "tx_in") s).1 in
      Untouched-trans server (index-Untouched (tx_in_doc h i x) (codes "tx_in") s)
        (index_tx_in-Untouched h (suc i) xs s')

  index_tx_out-Untouched :
      (h : Bytes) (i : ℕ) (xs : List TxOut) (s : S)
      → Untouched server s (index_tx_out server h i xs s)
  unfolding index_tx_out
  index_tx_out-Untouched h i [] s = record {
    tx = λ j l. refl;
    doc = λ j l. refl;
    block = λ j l. refl;
  }
  index_tx_out-Untouched h i (x ∷ xs) s =
      let s' = (index server (tx_out_doc h i x) bitcoin (codes "tx_out") s).1 in
      Untouched-trans server (index-Untouched (tx_out_doc h i x) (codes "tx_out") s)
        (index_tx_out-Untouched h (suc i) xs s')

  pub index_tx-Untouched : (h dat : Bytes) (s : S) → Untouched server s (index_tx server h dat s)
  unfolding index_tx
  index_tx-Untouched h dat s =
      let t = tx_of_data dat in
      let s' = index_tx_in server h 0 t.tx_in s in
      let s'' = index_tx_out server h 0 t.tx_out s' in
      Untouched-trans server
        (Untouched-trans server (index_tx_in-Untouched h 0 t.tx_in s)
          (index_tx_out-Untouched h 0 t.tx_out s'))
        (index-Untouched (tx_doc h dat t) (codes "tx") s'')
