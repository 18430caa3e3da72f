-- ===== src/Wallet.antt =====
-- services/wallet: the event-sourced wallet.
pub mod Domain
pub mod Store
pub mod Service
pub mod Outbox
pub mod Saga
