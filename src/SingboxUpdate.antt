-- ===== src/SingboxUpdate.antt =====
-- The distribution of one sing-box release to the nodes (internal/server/singboxupdate).
pub mod Job
pub mod Manager
pub mod Runner
pub mod Check
pub mod History
pub mod Invariant
pub mod Distribution
pub mod Convergence
mod Tests
