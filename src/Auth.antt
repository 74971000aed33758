-- ===== src/Auth.antt =====
-- services/jwt-auth/src/main.py: the tokens that its own encoder makes, their issue and their check.
pub mod Jwt
pub mod Padding
pub mod Tokens
mod Tests
