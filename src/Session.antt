-- ===== src/Session.antt =====
-- The retained session of internal/typefacts: its requests and their life cycle, its demand store,
-- its retained contributions and its symbol interner.
pub mod DemandStore
pub mod Interner
pub mod Requests
pub mod Services
pub mod Actions
pub mod Decimal
pub mod State
pub mod Evidence
pub mod Analyze
pub mod Lifecycle
