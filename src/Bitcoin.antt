-- ===== src/Bitcoin.antt =====
-- mod/ext/bitcoin: the Bitcoin wire format.
pub mod Stream
pub mod Tx
pub mod NetAddr
pub mod Block
