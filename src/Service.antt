-- ===== src/Service.antt =====
-- The spacer service (spacer/service).
pub mod NewNamespace
pub mod Room
pub mod Subspace
pub mod Serve
pub mod Command
