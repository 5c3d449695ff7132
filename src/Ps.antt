-- ===== src/Ps.antt =====
-- mod/daemon/ps: the publish/subscribe daemon. Ps/Server and Ps/Masters are ModPS.cpp, Ps/Client is
-- ModPSClient.cpp, and Ps/System is the daemon with its connected clients.
pub mod Server
pub mod Masters
pub mod Client
pub mod System
pub mod Refcount
pub mod Framing
pub mod Delivery
