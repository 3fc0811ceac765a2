-- ===== src/Shared.antt =====
-- The shared package of the services.
pub mod Session
pub mod Journal
pub mod Chain
pub mod Status
pub mod Money
pub mod Tables
pub mod Access
pub mod Consumer
mod Tests
