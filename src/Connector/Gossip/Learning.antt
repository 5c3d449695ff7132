-- ===== src/Connector/Gossip/Learning.antt =====
-- What the abstract nodes know in an exchange of transactions.
use pinetd.Prelude.{
  suc, ◌≡◌, ◌≤◌, refl, sym, ap, ◌∙◌, some, List, [], ◌∷◌, map, if◌then◌else◌, true, Bytes, bytes_eq,
  bytes_eq_refl, bytes_eq_iff, codes, length, All, Dict, find, find-put, has_key, has_key-find, put,
  arith, Bool-cases, inl, inr,
}
use pinetd.Bitcoin.Tx.{double_sha256}
use pinetd.Connector.Knowledge.{Known, tx, learn}
use pinetd.Connector.Client.Receive.{IsTx, learned}
use pinetd.Connector.Client.Serve.{found, missing}

has_key-put :
    (k j : Bytes) (v : Bytes) (m : Dict Bytes)
    → has_key j (put k v m) ≡ (if bytes_eq k j then true else has_key j m)
has_key-put k j v m = ground (arith, has_key-find j (put k v m), find-put k j v m, has_key-find j m)

-- The transactions that a node asks for.
abbrev pub wanted : Known → List Bytes → List Bytes
wanted k [] = []
wanted k (h ∷ hs) = if has_key h k.txs then wanted k hs else h ∷ wanted k hs

pub length-wanted : (k : Known) (hs : List Bytes) → length (wanted k hs) ≤ length hs
length-wanted k [] = omega arith
length-wanted k (h ∷ hs) = ground (arith, length-wanted k hs)

pub wanted-All : (P : Bytes → Type 0) (k : Known) (hs : List Bytes) → All P hs → All P (wanted k hs)
wanted-All P k [] a = tt
wanted-All P k (h ∷ hs) (p, ps) = elim (Bool-cases (has_key h k.txs)) [
  | inl e ↦ rw e (wanted-All P k hs ps)
  | inr e ↦ rw e (p, wanted-All P k hs ps)
]

-- What holds of those that were wanted, and of those that are known, holds of all.
pub All-wanted :
    (P : Bytes → Type 0) (k : Known) (hs : List Bytes)
    → All P (wanted k hs)
    → ((h : Bytes) → has_key h k.txs ≡ true → P h)
    → All P hs
All-wanted P k [] a i = tt
All-wanted P k (h ∷ hs) a i = elim (Bool-cases (has_key h k.txs)) [
  | inl e ↦ (i h e, All-wanted P k hs (rw e at a) i)
  | inr e ↦ let b : P h × All P (wanted k hs) = rw e at a in (b.0, All-wanted P k hs b.1 i)
]

module _ (sha256 : Bytes → Bytes) where
  -- A node has the transaction with the hash.
  pub record Owns (k : Known) (h : Bytes) : Type 0 where
    pub dat : Bytes
    pub stored : find h k.txs ≡ some dat
    pub hashes : double_sha256 sha256 dat ≡ h
    pub fits : IsTx dat

  abbrev pub contents : (k : Known) (hs : List Bytes) → All (Owns k) hs → List Bytes
  contents k [] o = []
  contents k (h ∷ hs) (o, os) = o.dat ∷ contents k hs os

  pub length-contents :
      (k : Known) (hs : List Bytes) (o : All (Owns k) hs) → length (contents k hs o) ≡ length hs
  length-contents k [] o = refl
  length-contents k (h ∷ hs) (o, os) = ap suc (length-contents k hs os)

  pub contents-IsTx :
      (k : Known) (hs : List Bytes) (o : All (Owns k) hs) → All IsTx (contents k hs o)
  contents-IsTx k [] o = tt
  contents-IsTx k (h ∷ hs) (o, os) = (o.fits, contents-IsTx k hs os)

  pub found-contents :
      (k : Known) (hs : List Bytes) (o : All (Owns k) hs)
      → found k hs ≡ map (λ dat. (codes "tx", dat)) (contents k hs o)
  found-contents k [] o = refl
  found-contents k (h ∷ hs) (o, os) =
      rw o.stored
        (ap (λ (t : List (Bytes × Bytes)). (codes "tx", o.dat) ∷ t) (found-contents k hs os))

  pub missing-Owns : (k : Known) (hs : List Bytes) → All (Owns k) hs → missing k hs ≡ []
  missing-Owns k [] o = refl
  missing-Owns k (h ∷ hs) (o, os) = rw o.stored (missing-Owns k hs os)

  learn-has_key :
      (t h : Bytes) (k : Known)
      → has_key h (learn sha256 (tx t) k).1.txs
        ≡ (if bytes_eq (double_sha256 sha256 t) h then true else has_key h k.txs)
  learn-has_key t h k =
      let d = double_sha256 sha256 t in
      elim (Bool-cases (has_key d k.txs)) [
        | inl e ↦ rw e (elim (Bool-cases (bytes_eq d h)) [
          | inl b ↦ rw b (ap (λ (x : Bytes). has_key x k.txs) (sym ((bytes_eq_iff d h).0 b)) ∙ e)
          | inr b ↦ rw b refl
        ])
        | inr e ↦ rw e (has_key-put d h t k.txs)
      ]

  pub learned-keeps :
      (ts : List Bytes) (h : Bytes) (k : Known)
      → has_key h k.txs ≡ true
      → has_key h (learned sha256 ts k).txs ≡ true
  learned-keeps [] h k e = e
  learned-keeps (t ∷ ts) h k e =
      learned-keeps ts h (learn sha256 (tx t) k).1 (ground (arith, learn-has_key t h k, e))

  pub learned-contents :
      (k l : Known) (hs : List Bytes) (o : All (Owns k) hs)
      → All (λ h. has_key h (learned sha256 (contents k hs o) l).txs ≡ true) hs
  learned-contents k l [] o = tt
  learned-contents k l (h ∷ hs) (o, os) =
      let l' = (learn sha256 (tx o.dat) l).1 in
      let there : has_key h l'.txs ≡ true =
        learn-has_key o.dat h l ∙ rw (o.hashes, bytes_eq_refl h) refl in
      (learned-keeps (contents k hs os) h l' there, learned-contents k l' hs os)
