-- ===== src/Auth.antt =====
-- internal/auth: the guards of a sign-in that decide by themselves.
pub mod Replay
pub mod ReturnTo
pub mod Exempt
pub mod ClientIp
pub mod Forwarded
mod Examples
