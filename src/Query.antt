-- ===== src/Query.antt =====
-- services/query: projections of the events of the other services, for reading.
pub mod Domain
pub mod Store
pub mod Service
