-- ===== src/Store.antt =====
-- internal/store: the repository that the control plane keeps its state in (store.go), and the
-- implementation in memory (memory.go).
pub mod Contract
pub mod Listing
pub mod Memory
