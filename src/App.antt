-- ===== src/App.antt =====
-- internal/app: what the server builds from its configuration at its start.
pub mod Bootstrap
pub mod TokenKeys
