-- ===== src/Bitcoin/Tx/Address.antt =====
-- BitcoinTxScript::getTxOutAddr: the one form of script that it takes apart.
use pinetd.Prelude.{
  ℕ, ◌-◌, ◌≡◌, ◌↔◌, ◌∙◌, [], ◌∷◌, ◌++◌, length, Bytes, arith, bytes_eq_iff, bytes_eq_refl, take,
  drop, drop-drop, take-append, drop-append, sym, take-append-drop, length-append,
}
use mathlib.Core.Path.{ap₂}
use pinetd.Bitcoin.Tx.{TxScript, get_tx_out_addr}

-- The script that pays to `addr`.
abbrev pub pay_to : Bytes → Bytes
pay_to addr = 0x76 ∷ 0xa9 ∷ 0x10 ∷ (addr ++ 0x88 ∷ 0xac ∷ [])

-- The tests of the function, read back from an answer that is not empty.
accepted :
    (s : Bytes) (b : ℕ) (bs : Bytes)
    → get_tx_out_addr (record { script = s }) ≡ b ∷ bs
    → (length s ≡ 21)
      × (take 3 s ≡ 0x76 ∷ 0xa9 ∷ 0x10 ∷ [])
      × (drop (length s - 2) s ≡ 0x88 ∷ 0xac ∷ [])
      × (take 16 (drop 3 s) ≡ b ∷ bs)
unfolding get_tx_out_addr
accepted s b bs e = ground (
  arith,
  bytes_eq_iff (take 3 s) (0x76 ∷ 0xa9 ∷ 0x10 ∷ []),
  bytes_eq_iff (drop (length s - 2) s) (0x88 ∷ 0xac ∷ []),
)

rebuilt :
    (s : Bytes) (addr : Bytes)
    → length s ≡ 21
    → take 3 s ≡ 0x76 ∷ 0xa9 ∷ 0x10 ∷ []
    → drop (length s - 2) s ≡ 0x88 ∷ 0xac ∷ []
    → take 16 (drop 3 s) ≡ addr
    → s ≡ pay_to addr
rebuilt s addr n front back middle =
    let tail : drop 16 (drop 3 s) ≡ 0x88 ∷ 0xac ∷ [] = drop-drop 3 16 s ∙ rw n at back in
    let rest : drop 3 s ≡ addr ++ 0x88 ∷ 0xac ∷ [] =
      sym (take-append-drop 16 (drop 3 s)) ∙ ap₂ (λ x y. x ++ y) middle tail in
    sym (take-append-drop 3 s) ∙ ap₂ (λ x y. x ++ y) front rest

found :
    (s : Bytes) (addr : Bytes)
    → length addr ≡ 16
    → s ≡ pay_to addr
    → get_tx_out_addr (record { script = s }) ≡ addr
unfolding get_tx_out_addr
found s addr n e =
    let tail : Bytes = 0x88 ∷ 0xac ∷ [] in
    let size : length (addr ++ tail) ≡ 18 = omega (arith, length-append addr tail) in
    let back : drop (length (pay_to addr) - 2) (pay_to addr) ≡ tail =
      rw size (drop-append 16 addr tail n) in
    rw e (
      ground (
        arith,
        size,
        back,
        take-append 16 addr tail n,
        bytes_eq_refl (0x76 ∷ 0xa9 ∷ 0x10 ∷ []),
        bytes_eq_refl tail,
      ))

-- An address of 16 bytes is found exactly in the script that pays to it.
pub get_tx_out_addr_iff :
    (s : TxScript) (addr : Bytes)
    → length addr ≡ 16
    → (get_tx_out_addr s ≡ addr) ↔ (s.script ≡ pay_to addr)
get_tx_out_addr_iff s [] n = absurd (omega arith)
get_tx_out_addr_iff s (b ∷ bs) n = (
  λ e.
      let (l, front, back, middle) = accepted s.script b bs e in
      rebuilt s.script (b ∷ bs) l front back middle,
  found s.script (b ∷ bs) n,
)
