-- ===== src/Ai.antt =====
-- The assistant of the panel (internal/server/httpapi and internal/server/store).
pub mod Transcript
pub mod Budget
pub mod Turn
