-- ===== src/Web.antt =====
-- services/bb-webd.c: the web dashboard daemon.
pub mod Builder
pub mod Http
pub mod Status
pub mod Form
pub mod Request
pub mod Server
mod Tests
