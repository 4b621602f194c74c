-- ===== src/Python.antt =====
-- crates/winvpwn-core/src/python.rs: `run_elf` and `parse_elf`. A dict is a record, a key that is
-- not set for every result is an `Option`, and an exception is its text.
pub mod Traced
pub mod Boot
pub mod Apart
pub mod Started
pub mod Whole
pub mod Refused
pub mod Parsed
pub mod Fallen
pub mod Faulted
pub mod Logged
use mathlib.Core.Option.{map as map_option}
use win_vpwn.Base.{
  ℕ, ◌+◌, List, [], ◌∷◌, Bool, Option, none, some, Text, codes, Done, Outcome, ok, error, panic,
  map_err, ◌>>=◌, map,
}
use win_vpwn.Base.Exec
use win_vpwn.Base.Exec.{◌>>◌}
use win_vpwn.Trace.{Buffers, TraceSink, TraceRecord, drain}
use win_vpwn.Vkernel.Process.{ExitReason, exit, falloff, stopped}
use win_vpwn.Syscall.Dispatch.{Dispatch, new_dispatch, set_trace}
use win_vpwn.Syscall.Handlers.{register_all}
use win_vpwn.Elf.{Segment, LoadedElf, load_elf, elf_error_text}
use win_vpwn.Elf.Format.{Goblin}
use win_vpwn.Cpu.Engine.{Unicorn, unicorn_guest}
use win_vpwn.Cpu.Vcpu.{
  Vcpu, VcpuError, Method, vcpu_error_text, new_vcpu, map_elf, map_stack, setup_initial_state,
  stack_base, stack_size, output,
}
use win_vpwn.Cpu.Run.{run, Ran}

-- The dict of `run_elf`.
pub record RunResult : Type 0 where
  pub exit : Text
  pub code : Option ℕ
  pub rip : Option ℕ
  pub output : List ℕ
  pub trace : List TraceRecord

-- The match on the exit reason.
unfoldable pub run_result : ExitReason → List ℕ → List TraceRecord → RunResult
run_result (exit code) out records = record {
  exit = codes "exit";
  code = some code;
  rip = none;
  output = out;
  trace = records;
}
run_result (falloff rip) out records = record {
  exit = codes "falloff";
  code = none;
  rip = some rip;
  output = out;
  trace = records;
}
run_result stopped out records = record {
  exit = codes "stopped";
  code = none;
  rip = none;
  output = out;
  trace = records;
}

-- A segment in the dict of `parse_elf`.
pub record SegmentInfo : Type 0 where
  pub vaddr : ℕ
  pub memsz : ℕ
  pub filesz : ℕ
  pub flags : ℕ
  pub align : ℕ

pub record ElfInfo : Type 0 where
  pub entry : ℕ
  pub is_pie : Bool
  pub segments : List SegmentInfo

abbrev pub segment_info : Segment → SegmentInfo
segment_info seg = record {
  vaddr = seg.vaddr;
  memsz = seg.memsz;
  filesz = seg.filesz;
  flags = seg.flags;
  align = seg.align;
}

unfoldable pub parse_elf : Goblin → List ℕ → Outcome Text ElfInfo
parse_elf goblin image = map_err elf_error_text (load_elf goblin image) >>= λ elf.
    ok (record { entry = elf.entry; is_pie = elf.is_pie; segments = map segment_info elf.segments })

module _ (u : Unicorn) (goblin : Goblin) where
  -- The dispatcher of `run_elf`, with the sink that it has made.
  abbrev pub run_dispatch : TraceSink → Dispatch u.State
  run_dispatch sink = set_trace (register_all (unicorn_guest u) (new_dispatch u.State)) sink

  -- `map_elf`, `map_stack` and `setup_initial_state`
  abbrev pub set_up : LoadedElf → Method u Done
  set_up elf =
      map_elf u elf
      >> (map_stack u stack_base stack_size
          >> setup_initial_state u elf.entry (stack_base + stack_size))

  abbrev pub set_up_cpu : LoadedElf → Vcpu u → Outcome VcpuError (Vcpu u)
  set_up_cpu elf v = (set_up elf v).0 >>= λ done. ok (set_up elf v).1

  -- From the image to a CPU that is ready to run.
  unfoldable pub boot : List ℕ → TraceSink → Outcome Text (Vcpu u)
  boot image sink = map_err elf_error_text (load_elf goblin image) >>= λ elf.
      map_err vcpu_error_text (new_vcpu u (run_dispatch sink) >>= λ v. set_up_cpu elf v)

  -- What `run_elf` makes of the run's result.
  unfoldable pub collect :
      TraceSink → Outcome VcpuError ExitReason × Vcpu u × Buffers → Outcome Text RunResult
  collect sink (reason, v, bufs) =
      map_err vcpu_error_text reason >>= λ r. ok (run_result r (output u v) (drain bufs sink).0)

  unfoldable pub run_booted :
      ℕ → ℕ → TraceSink → Buffers → Outcome Text (Vcpu u) → Option (Outcome Text RunResult)
  unfolding collect
  run_booted fuel timeout_ms sink bufs (error e) = some (error e)
  run_booted fuel timeout_ms sink bufs panic = some panic
  run_booted fuel timeout_ms sink bufs (ok v) =
      map_option (collect sink) (run u fuel timeout_ms v bufs)

  -- `run_elf`, with the fuel of the emulation, and the buffers with a fresh sink, whose buffer is
  -- empty; `none` if the fuel ran out.
  unfoldable pub run_elf : ℕ → TraceSink → Buffers → List ℕ → ℕ → Option (Outcome Text RunResult)
  unfolding boot run_booted
  run_elf fuel sink bufs image timeout_ms = run_booted fuel timeout_ms sink bufs (boot image sink)
