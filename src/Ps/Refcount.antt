-- ===== src/Ps/Refcount.antt =====
-- The table of counts of ModPS and the subscriptions of its clients.
pub mod Counts
pub mod OneClient
pub mod Reachable
