-- ===== src/Ingest.antt =====
-- app/services/ingest.py
pub mod Title
pub mod Match
pub mod Listings
pub mod Matches
mod Examples
