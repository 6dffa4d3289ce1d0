-- ===== src/Tokens.antt =====
-- app/core/token_crypto.py and app/services/token_lifecycle.py
pub mod Crypto
pub mod Lifecycle
mod Examples
