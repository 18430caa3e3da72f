-- ===== src/Gateway.antt =====
-- services/gateway: the authentication of requests, and the limit on the calls of one user.
pub mod RateLimit
pub mod Authentication
