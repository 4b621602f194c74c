-- ===== src/Syscall/Errno.antt =====
-- crates/winvpwn-core/src/syscall/errno.rs
use win_vpwn.Base.{ℤ, pos, negsuc, zero, suc, ◌-◌, ◌^◌, ltb, if◌then◌else◌}

abbrev pub enosys : ℤ
enosys = pos 38

abbrev pub einval : ℤ
einval = pos 22

abbrev pub ebadf : ℤ
ebadf = pos 9

abbrev pub efault : ℤ
efault = pos 14

-- The negation of an `i64`; that of `i64::MIN` wraps to itself.
abbrev pub err : ℤ → ℤ
err (pos zero) = pos zero
err (pos (suc n)) = negsuc n
err (negsuc n) = if ltb n (2 ^ 63 - 1) then pos (suc n) else negsuc n
