-- ===== src/Server.antt =====
-- Parts of the panel behind its surface: who asks and may log in (internal/server/security and
-- internal/server/httpapi), which version of sing-box is the newest (internal/server/singboxdl),
-- and how the agents are brought up to date (internal/server/agentupdate).
pub mod RealIp
pub mod Login
pub mod LoginGate
pub mod Sessions
pub mod Versions
pub mod AgentUpdate
