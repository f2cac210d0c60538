-- ===== src/Auth.antt =====
-- app/auth: passwords, access tokens, refresh tokens and permissions.
pub mod Passwords
pub mod Jwt
pub mod Permissions
pub mod RefreshTokens
