-- ===== src/Installer.antt =====
-- internal/installer: the plan of an installation, the transaction that changes the files of the host,
-- and its rollback.
pub mod Paths
pub mod Inspect
pub mod Url
pub mod Plan
pub mod Transaction
pub mod Restore
pub mod Steps
pub mod Revert
pub mod Apply
