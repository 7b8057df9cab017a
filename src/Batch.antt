-- ===== src/Batch.antt =====
-- Batch scraping: pkg/batch. A child module for each part of the package that is modelled.
pub mod Jobs
pub mod Options
pub mod Gate
pub mod Worker
pub mod Writer
pub mod Import
mod Tests
