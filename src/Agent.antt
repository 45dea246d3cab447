-- ===== src/Agent.antt =====
-- The probe (internal/agent).
pub mod Forwards
pub mod Icmp
pub mod SelfUpdate
