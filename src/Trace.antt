-- ===== src/Trace.antt =====
-- crates/winvpwn-core/src/trace/recorder.rs: the recorded syscalls. A sink is a handle, and its
-- clones are the same handle: the buffers stand in a store that is passed along.
pub mod Numbered
pub mod Histories
use win_vpwn.Base.{
  ℕ, ℤ, pos, List, [], ◌∷◌, ◌++◌, Bool, Text, length, ◌==◌, if◌then◌else◌, ◌%◌, ◌^◌,
}
use win_vpwn.Vkernel.Process.{ExitReason}

-- `SyscallOutcome` of syscall/dispatch.rs
pub data SyscallOutcome : Type 0 where
  return : ℤ → SyscallOutcome
  exit : ExitReason → SyscallOutcome

-- `[u64; 6]`
abbrev pub Args : Type 0
Args = ℕ × ℕ × ℕ × ℕ × ℕ × ℕ

pub record TraceRecord : Type 0 where
  pub seq : ℕ
  pub nr : ℤ
  pub name : Text
  pub args : Args
  pub ret : ℤ
  pub rip : ℕ

abbrev pub TraceSink : Type 0
TraceSink = ℕ

-- What each sink's mutex holds.
abbrev pub Buffers : Type 0
Buffers = TraceSink → List TraceRecord

abbrev pub set_buffer : Buffers → TraceSink → List TraceRecord → Buffers
set_buffer bufs sink records other = if other == sink then records else bufs other

abbrev pub traced_ret : SyscallOutcome → ℤ
traced_ret (return ret) = ret
traced_ret (exit reason) = pos 0

-- `TraceSink::record`; `buf.len() as u64` is the sequence number.
unfoldable pub push_record : Buffers → TraceSink → Text → ℤ → Args → ℕ → SyscallOutcome → Buffers
push_record bufs sink name nr args rip outcome = set_buffer bufs sink (
    bufs sink
    ++ record {
      seq = length (bufs sink) % 2 ^ 64;
      nr = nr;
      name = name;
      args = args;
      ret = traced_ret outcome;
      rip = rip;
    }
      ∷ [])

-- `TraceSink::drain`: the records, and the store with an empty buffer.
unfoldable pub drain : Buffers → TraceSink → List TraceRecord × Buffers
drain bufs sink = (bufs sink, set_buffer bufs sink [])

unfoldable pub len : Buffers → TraceSink → ℕ
len bufs sink = length (bufs sink)

unfoldable pub is_empty : Buffers → TraceSink → Bool
unfolding len
is_empty bufs sink = len bufs sink == 0
