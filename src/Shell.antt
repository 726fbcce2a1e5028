-- ===== src/Shell.antt =====
-- Assign5/sh61.c: the shell.
pub mod Command
pub mod Control
pub mod Parse
pub mod Groups
pub mod IfLine
pub mod Accept
pub mod Run
pub mod Ends
pub mod AndOr
pub mod IfThen
pub mod Posix
pub mod Launch
mod Redirect
mod CdRestores
mod Descriptors
mod Wiring
pub mod Prompt
mod Pieces
mod PromptLines
mod PromptTests
mod Tests
mod ProcessTests
