-- ===== src/Detector.antt =====
-- internal/detector: what an Agent watches on its host.
pub mod Ssh
pub mod Runtime
