-- ===== src/Emails.antt =====
-- The search for e-mail addresses on a site: pkg/emails.
pub mod Types
pub mod Targets
pub mod Search
pub mod Find
mod Tests
