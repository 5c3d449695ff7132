-- ===== src/Tests.antt =====
-- Runs of the definitions on concrete inputs, and the theorems at inputs that meet their hypotheses.
pub mod Bitcoin
pub mod Core
pub mod Line
pub mod Ps
pub mod Config
pub mod RConnect
pub mod Irc
pub mod Connector
pub mod Inventory
pub mod Chargen
pub mod Handshake
pub mod Node
pub mod Client
pub mod Daemons
