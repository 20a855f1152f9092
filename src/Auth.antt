-- ===== src/Auth.antt =====
-- internal/auth: session tokens.
pub mod Tokens
