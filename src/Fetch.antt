-- ===== src/Fetch.antt =====
-- The loading of one page: pkg/fetch. A child module for each file of the package that is modelled.
pub mod Page
pub mod Routes
pub mod Clearances
pub mod Classify
pub mod Service
pub mod Limiter
mod Tests
