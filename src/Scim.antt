-- ===== src/Scim.antt =====
-- internal/auth/scim/filter.go: the filters that identity providers send.
pub mod Lexer
pub mod Syntax
pub mod Parser
pub mod Print
pub mod RoundTrip
pub mod Names
pub mod Ensures
pub mod Sound
mod Examples
pub mod Match
pub mod Alike
pub mod Order
pub mod Total
