-- ===== src/Auth.antt =====
-- src/ride_service/auth/: tokens, the cookie that carries one, and the guards of the endpoints.
pub mod Jwt
pub mod Cookies
pub mod Dependencies
pub mod Presented
