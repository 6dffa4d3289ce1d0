-- ===== src/WatchRules.antt =====
-- app/services/watch_rules.py
pub mod Schema
pub mod Validate
pub mod Owner
pub mod Merge
pub mod Store
mod Examples
