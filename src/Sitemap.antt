-- ===== src/Sitemap.antt =====
-- The map of a site: pkg/sitemap.
pub mod Types
pub mod Robots
pub mod Urls
pub mod Run
pub mod Shape
pub mod Trie
pub mod Templates
pub mod Similarity
pub mod Scripts
pub mod Crawl
pub mod Map
mod Tests
