-- ===== src/Gateway.antt =====
-- The local events of the Gateway: internal/localfeed and internal/gatewayevents.
pub mod Feed
pub mod Outbox
