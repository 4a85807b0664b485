-- ===== src/Examples.antt =====
-- Small inputs, and the theorems at them.
pub mod Fixtures
mod Nodes
mod Sessions
mod Mails
mod Users
mod Commands
mod Patches
mod Menus
mod Terminals
mod Replies
mod Flags
