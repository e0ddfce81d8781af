-- ===== src/Auth.antt =====
-- src/sleuthgraph/auth: how an OIDC identity becomes a local user, and which address a request is
-- counted under.
pub mod Provision
pub mod ClientIp
pub mod Oidc
pub mod RateLimit
pub mod Password
pub mod Bootstrap
mod Tests
