-- ===== src/Agent.antt =====
-- internal/agentrt: the agent run engine's permissions, approvals, triggers, jobs and tool loop.
pub mod Model
pub mod Perms
pub mod Gate
pub mod Decide
pub mod Parked
pub mod Retry
pub mod Failed
pub mod Loop
pub mod Bounds
pub mod Stream
pub mod Streamed
pub mod Trigger
pub mod Caps
pub mod Alerts
pub mod Passed
pub mod Created
pub mod Steps
mod Examples
mod Samples
mod Chats
