-- ===== src/Pong.antt =====
-- Assign6/pong61.c: the network client.
mod Http
mod Chunks
mod Receive
mod Response
mod Body
mod Pool
mod Send
mod Thread
mod Backoff
mod Finish
pub mod Game
mod Rounds
mod Clock
mod Dots
mod Play
mod Tests
mod GameTests
mod ThreadTests
