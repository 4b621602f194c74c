-- ===== src/Syscall.antt =====
-- crates/winvpwn-core/src/syscall: the translation of Linux syscalls.
pub mod Errno
pub mod Dispatch
pub mod Handlers
