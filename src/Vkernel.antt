-- ===== src/Vkernel.antt =====
-- crates/winvpwn-core/src/vkernel/mod.rs: the errors of the virtual kernel, the process and the
-- context that a syscall handler is given. process.rs, io.rs and mem.rs are the children.
pub mod Process
pub mod Capture
pub mod Guest
use win_vpwn.Base.{◌++◌, Text, codes}
use win_vpwn.Memory.{MmapError, MemoryMap, mmap_error_text, empty_map}
use Process.{ProcessState, running}
use Capture.{OutputCapture, empty_capture}
use Guest.{InMemGuest, empty_guest}

pub data VkernelError : Type 0 where
  map : MmapError → VkernelError
  state : Text → VkernelError

pub vkernel_error_text : VkernelError → Text
vkernel_error_text (map e) = codes "E301: " ++ mmap_error_text e
vkernel_error_text (state msg) = codes "E302: " ++ msg

-- `impl From<MmapError> for VkernelError`
pub from_mmap_error : MmapError → VkernelError
from_mmap_error e = map e

pub record VirtualProcess : Type 0 where
  pub state : ProcessState
  pub mem : MemoryMap

-- `Process::new`
pub new_process : VirtualProcess
new_process = record { state = running; mem = empty_map }

-- `Context`, over the type of its guest memory (a `Box<dyn GuestMemory>` in the source).
pub record Context (M : Type 0) : Type 0 where
  pub process : ProcessState
  pub mem : M
  pub io : OutputCapture

-- `Context::new`
abbrev pub new_context : Context InMemGuest
new_context = record { process = running; mem = empty_guest; io = empty_capture }
