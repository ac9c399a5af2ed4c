-- ===== src/Security.antt =====
-- internal/security: signing keys, tokens and password hashes.
pub mod Keys
pub mod Tokens
pub mod Passwords
