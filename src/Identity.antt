-- ===== src/Identity.antt =====
-- modules/identity-authorization: session revocation.
pub mod Revocation
