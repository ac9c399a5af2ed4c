-- ===== src/Oauth.antt =====
-- internal/oauth.
pub mod StateStore
