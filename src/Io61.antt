-- ===== src/Io61.antt =====
-- Assign2/io61.c: the buffered I/O library.
pub mod State
pub mod Ensures
pub mod Maps
pub mod Read
pub mod Write
pub mod Files
mod Slices
mod Output
mod ReadBuf
mod Input
mod Refill
mod Pipe
mod Mapped
mod Removed
mod MapRead
mod MapSeek
mod OpenClose
mod Tests
