-- ===== src/Spacer.antt =====
-- The spacer client (spacer).
pub mod PidFd
pub mod Gobmsg
pub mod Client
