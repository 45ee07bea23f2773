-- ===== src/Mtls.antt =====
-- internal/mtls: the certificates by which Agents prove who they are.
pub mod Identity
