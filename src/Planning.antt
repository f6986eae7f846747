-- ===== src/Planning.antt =====
-- planning.py: task manifests and the policy for model-produced execution plans.
pub mod Tool
pub mod Spec
pub mod Plan
pub mod Receipt
pub mod Payloads
pub mod Reading
pub mod Evidence
pub mod Chain
pub mod Bound
