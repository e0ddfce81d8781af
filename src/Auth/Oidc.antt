-- ===== src/Auth/Oidc.antt =====
-- auth/oidc*.py: sign-in at an identity provider.
pub mod State
pub mod IdToken
pub mod Callback
pub mod Login
pub mod SignedIn
mod Tests
