-- ===== src/Identity.antt =====
-- services/identity.
pub mod Domain
pub mod Store
pub mod Service
pub mod Server
