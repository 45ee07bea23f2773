-- ===== src/Agent.antt =====
-- internal/agent: what runs on a host. The queue of events, the loop that sends it, and the policy.
pub mod Queue
pub mod Flush
pub mod Policy
