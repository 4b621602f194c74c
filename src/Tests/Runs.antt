-- ===== src/Tests/Runs.antt =====
-- Runs of the guest to its end, and `run_elf` of an image with it.
use win_vpwn.Base.{
  ℕ, true, any, pos, [], ◌∷◌, false, none, some, codes, ◌≡◌, inl, refl, ok, ◌%◌, ◌≤◌, arith, length,
}
use win_vpwn.Memory
use win_vpwn.Memory.{empty_map}
use win_vpwn.Trace.{SyscallOutcome, push_record, drain}
use win_vpwn.Trace.Numbered.{IsNumberedFrom}
use win_vpwn.Vkernel.Process.{exit}
use win_vpwn.Vkernel.Capture
use win_vpwn.Vkernel.Capture.{combined}
use win_vpwn.Vkernel.Guest.{zeroed}
use win_vpwn.Syscall.Dispatch.{dispatch, get, register, set_trace}
use win_vpwn.Syscall.Handlers.{register_all, handle_exit, handle_write}
use win_vpwn.Elf.{
  load_elf, load_parsed, load_segments, pt_loads, claim, read_contents, copy_to_front, file_bytes,
  slice_to,
}
use win_vpwn.Cpu.Engine.{guest_read}
use win_vpwn.Cpu.Vcpu.{
  Vcpu, new_shared, new_vcpu, map_elf, map_segments, map_segment, engine_present, claim_range,
  call_engine, page_start, pages_size, map_stack, map_memory, setup_initial_state, output,
}
use win_vpwn.Cpu.Hook.{HookState, syscall_hook, settle, read_regs}
use win_vpwn.Cpu.Hook.Effects.{hook-write, hook-exit, traced, exit_name, regs}
use win_vpwn.Cpu.Run.{run, emulate, finish, report, resumed}
use win_vpwn.Cpu.Run.Steps.{Step, syscall, Reaches, here, next}
use win_vpwn.Cpu.Run.Reports.{run-stale, result}
use win_vpwn.Python.{RunResult, run_elf, run_booted, boot, collect, run_result}
use win_vpwn.Python.Traced.{run_elf-trace}
use win_vpwn.Memory.Claims.{in_range}
use win_vpwn.Cpu.Vcpu.{stack_base, stack_size}
use win_vpwn.Cpu.Vcpu.Mapping.{in_pages}
use win_vpwn.Cpu.Vcpu.Claimed.{PagesApart}
use win_vpwn.Python.Apart.{run_elf-PagesApart}
use win_vpwn.Tests.Loaded.{loaded-AllLow}
use win_vpwn.Tests.Images.{image, file, loaded, loads}
use win_vpwn.Tests.Machine.{Machine, parser}
use win_vpwn.Tests.Guest.{
  unicorn, engine, no_records, cpu, start, at_write, table, after_write, nr_at_write, len_at_write,
  writes_out, reads_two,
}

writes : Step unicorn table start after_write
unfolding read_regs
writes = syscall refl (
    hook-write unicorn (some 0) at_write (b'A' ∷ b'A' ∷ []) nr_at_write writes_out reads_two
      (omega (arith, len_at_write)))

pub wrote : Reaches unicorn table start 1 after_write
wrote = next here writes

nr_at_exit : (read_regs unicorn (resumed unicorn after_write).engine).syscall_nr ≡ pos 60
unfolding read_regs
nr_at_exit = refl

-- The code is 0x12a modulo 256.
runs : result unicorn cpu engine no_records 0 (run unicorn 3 0 cpu no_records) ≡ some (ok (exit 42))
unfolding run emulate syscall_hook settle dispatch get register_all register handle_write
    handle_exit read_regs guest_read zeroed combined Capture.write finish report
runs = refl

abbrev pub after_exit : HookState unicorn
after_exit = record {
  engine = (unicorn.emu_stop (resumed unicorn after_write).engine).1;
  shared = record {
    output = b'A' ∷ b'A' ∷ [];
    exit_reason = some (exit ((regs unicorn (some 0) (resumed unicorn after_write)).arg0 % 256));
    engine_error = none;
  };
  bufs =
      traced unicorn (some 0) (resumed unicorn after_write)
        (exit_name unicorn (some 0) (resumed unicorn after_write))
        (SyscallOutcome.exit
          (exit ((regs unicorn (some 0) (resumed unicorn after_write)).arg0 % 256)));
}

pub exited : Reaches unicorn table start 2 after_exit
exited =
    next wrote
      (syscall refl (hook-exit unicorn (some 0) (resumed unicorn after_write) (inl nr_at_exit)))

-- A machine without a program, after a run that ended with 7.
abbrev idle : Machine
idle = record { regs = λ r. 0; program = []; halted = false }

abbrev stale_cpu : Vcpu unicorn
stale_cpu = record cpu {
  uc = some idle;
  shared = record new_shared { exit_reason = some (exit 7) };
}

run-stale_example :
    result unicorn stale_cpu idle no_records 0 (run unicorn 1 0 stale_cpu no_records)
    ≡ some (ok (exit 7))
run-stale_example =
    run-stale unicorn stale_cpu idle no_records 0 1 (exit 7) refl refl refl (omega arith)

-- What `run_elf` returns for the guest: its two bytes, and two records.
abbrev returned_result : RunResult
returned_result = record {
  exit = codes "exit";
  code = some 42;
  rip = none;
  output = b'A' ∷ b'A' ∷ [];
  trace =
      record {
        seq = 0;
        nr = pos 1;
        name = codes "write";
        args = (1, 0x2000, 2, 0, 0, 0);
        ret = pos 2;
        rip = 0x400000;
      }
      ∷ record {
        seq = 1;
        nr = pos 60;
        name = codes "exit";
        args = (0x12a, 0, 0, 0, 0, 0);
        ret = pos 0;
        rip = 0x400000;
      }
      ∷ [];
}

runs_elf : run_elf unicorn (parser file) 3 0 no_records image 0 ≡ some (ok returned_result)
unfolding run_elf boot run_booted collect run_result load_elf load_parsed load_segments pt_loads
    claim Memory.insert read_contents zeroed copy_to_front new_vcpu register_all register set_trace
    map_elf engine_present map_segments map_segment claim_range call_engine page_start pages_size
    file_bytes slice_to map_stack map_memory setup_initial_state run emulate syscall_hook settle
    dispatch get handle_write handle_exit read_regs guest_read combined Capture.write finish report
    output drain push_record
runs_elf = refl

run_elf-trace_example : IsNumberedFrom 0 returned_result.trace × (length returned_result.trace ≤ 3)
run_elf-trace_example =
    run_elf-trace unicorn (parser file) 3 0 0 no_records image returned_result refl runs_elf
      (omega arith)

run_elf-PagesApart_example :
    PagesApart loaded.segments
    × ((a : ℕ)
        → any (λ s. in_pages s a) loaded.segments ≡ true
        → in_range stack_base stack_size a ≡ false)
run_elf-PagesApart_example =
    run_elf-PagesApart unicorn (parser file) loaded loaded-AllLow 3 0 0 no_records image
      returned_result loads runs_elf
