-- ===== src/Transaction.antt =====
-- services/transaction: transfers between wallets, the orchestrating half of the saga.
pub mod Domain
pub mod Store
pub mod Lifecycle
pub mod Service
