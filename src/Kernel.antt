-- ===== src/Kernel.antt =====
-- Assign4/kernel.c and Assign4/k-loader.c: the WeensyOS kernel.
pub mod State
pub mod Pages
pub mod Release
pub mod Ownership
pub mod Released
pub mod Alloc
pub mod Fork
pub mod ForkFrame
pub mod Invariant
pub mod Forking
pub mod Schedule
pub mod RoundRobin
pub mod Check
pub mod Exception
pub mod Trap
pub mod Resume
pub mod Syscalls
pub mod Loader
pub mod Loading
pub mod Boot
pub mod Pageinfo
pub mod Booting
pub mod Reach
pub mod CheckFrame
pub mod Fair
mod Tests
mod BootTests
mod FairTests
mod Display
mod Drawing
mod Shown
mod DisplayTests
