-- ===== src/Gateway.antt =====
-- services/api-gateway/main.py: the entry point of the platform.
pub mod Limiter
pub mod Keys
pub mod Proxy
mod Tests
