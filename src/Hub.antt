-- ===== src/Hub.antt =====
-- internal/server/hub: the connections of the probes and what the panel sends and receives on them.
pub mod Drain
pub mod Traffic
pub mod Registry
