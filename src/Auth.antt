-- ===== src/Auth.antt =====
-- internal/auth/auth.go: API keys and the middleware that authenticates requests.
pub mod Keys
pub mod Middleware
pub mod Bootstrap
mod Tests
