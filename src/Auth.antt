-- ===== src/Auth.antt =====
-- Frontend/hawkeye-web: signing in (src/lib/auth/options.ts) and the two middlewares.
pub mod Token
pub mod Middleware
pub mod Forms
pub mod Login
pub mod SignUp
