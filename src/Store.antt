-- ===== src/Store.antt =====
-- The queries of internal/server/store that carry the panel's state machines, one child for each
-- table. A call that the database refuses rolls its transaction back and changes nothing, so each
-- operation below is the case where the database answers.
pub mod Inbounds
pub mod Access
pub mod Alerts
pub mod Commands
pub mod Singbox
pub mod AiGate
pub mod Nodes
