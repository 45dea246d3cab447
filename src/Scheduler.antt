-- ===== src/Scheduler.antt =====
-- The periodic jobs of the panel (internal/server/scheduler).
pub mod Delivery
pub mod Liveness
pub mod Billing
