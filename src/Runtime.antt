-- ===== src/Runtime.antt =====
-- agent_runtime_v2.py: the tools that a model may call, the state that they share, and the runs.
pub mod Tool
pub mod State
pub mod Evidence
pub mod Execute
pub mod Frame
pub mod Policy
pub mod Invoke
pub mod Freeze
pub mod Delivery
pub mod Keeps
pub mod Effects
pub mod Calls
pub mod Log
pub mod Reach
pub mod Order
pub mod Verdict
pub mod Ending
pub mod Frozen
pub mod Intake
