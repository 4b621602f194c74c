-- ===== src/Tests.antt =====
-- Tests of the definitions on concrete inputs, and examples of the theorems.
pub mod Machine
pub mod Maps
pub mod Images
pub mod Syscalls
pub mod Guest
pub mod Runs
pub mod Panics
pub mod Board
pub mod Loaded
pub mod Started
pub mod Stores
pub mod Observed
pub mod Whole
pub mod Orders
pub mod Reached
pub mod Courses
pub mod Falling
pub mod Faulting
pub mod Units
