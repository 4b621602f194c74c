-- ===== src/Cpu/Vcpu/Errors.antt =====
-- `VcpuError` of crates/winvpwn-core/src/cpu/unicorn_engine.rs.
use win_vpwn.Base.{ℕ, ◌++◌, Text, codes, to_hex}

pub data VcpuError : Type 0 where
  init : Text → VcpuError
  map : ℕ → Text → VcpuError
  reg_op : Text → VcpuError
  exec : Text → VcpuError
  not_loaded : VcpuError

-- `VcpuError::code`
unfoldable pub vcpu_error_code : VcpuError → Text
vcpu_error_code (init msg) = codes "E501"
vcpu_error_code (map base reason) = codes "E502"
vcpu_error_code (reg_op msg) = codes "E503"
vcpu_error_code (exec msg) = codes "E504"
vcpu_error_code not_loaded = codes "E505"

vcpu_error_reason : VcpuError → Text
vcpu_error_reason (init msg) = codes ": failed to initialize emulator: " ++ msg
vcpu_error_reason (map base reason) =
    codes ": cannot map guest region at 0x" ++ (to_hex base ++ (codes ": " ++ reason))
vcpu_error_reason (reg_op msg) = codes ": register/memory error: " ++ msg
vcpu_error_reason (exec msg) = codes ": execution error: " ++ msg
vcpu_error_reason not_loaded = codes ": image not loaded"

-- `Display for VcpuError`
unfoldable pub vcpu_error_text : VcpuError → Text
unfolding vcpu_error_code vcpu_error_reason
vcpu_error_text e = vcpu_error_code e ++ vcpu_error_reason e
