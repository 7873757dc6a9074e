-- ===== src/Examples.antt =====
-- The theorems at concrete inputs, and runs of the model.
pub mod Decisions
mod Permissions
mod Requests
mod Lives
mod Chains
pub mod Calls
mod Governance
mod Answers
mod Locks
mod Traces
mod Policies
