-- ===== src/Core.antt =====
-- mod/core: the connections that the daemons share, and the routing of ports to daemons.
pub mod ClientTcp
pub mod Modules
pub mod Config
pub mod Port
pub mod Tcp
pub mod Udp
pub mod Udg
pub mod Wiring
pub mod Clients
