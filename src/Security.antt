-- ===== src/Security.antt =====
-- api/security: the tokens and the request filter. The children follow the packages: Aes is
-- app/utils/aes.go, Tokens is api/security/bearer and api/security/jwt, Verify is
-- api/security/security.go.
pub mod Aes
pub mod Tokens
