-- ===== src/Tests.antt =====
-- The theorems applied to small concrete inputs.
mod Fixtures
mod DomainTests
mod StoreTests
mod ControlTests
mod AgentTests
mod PolicyTests
mod DetectorTests
mod InstallerTests
mod RuntimeTests
mod GatewayTests
