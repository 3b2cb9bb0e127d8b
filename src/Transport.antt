-- ===== src/Transport.antt =====
-- transport/: the streamable HTTP endpoint and its sessions.
pub mod Sessions
pub mod Http
