-- ===== src/Vkernel/Process.antt =====
-- crates/winvpwn-core/src/vkernel/process.rs, and `ExitReason` of vkernel/mod.rs.
use win_vpwn.Base.{ℕ, ◌++◌, Text, codes, to_hex, to_decimal}

pub data ProcessState : Type 0 where
  running : ProcessState
  exited : ℕ → ProcessState

pub process_state_text : ProcessState → Text
process_state_text running = codes "running"
process_state_text (exited code) = codes "exited(code=" ++ (to_decimal code ++ codes ")")

pub data ExitReason : Type 0 where
  exit : ℕ → ExitReason
  falloff : ℕ → ExitReason
  stopped : ExitReason

pub exit_reason_text : ExitReason → Text
exit_reason_text (exit code) = codes "exit(" ++ (to_decimal code ++ codes ")")
exit_reason_text (falloff rip) = codes "instruction falloff at 0x" ++ to_hex rip
exit_reason_text stopped = codes "stopped by user"
