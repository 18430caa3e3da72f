-- ===== src/Fraud.antt =====
-- services/fraud: the rules on a transfer, and the profiles that they read.
pub mod Domain
pub mod Profiles
pub mod Service
pub mod Server
pub mod Updater
