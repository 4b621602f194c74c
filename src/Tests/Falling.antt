-- ===== src/Tests/Falling.antt =====
-- A machine that stops with an access fault, and `run_elf` of an image with it.
use win_vpwn.Base.{
  ℕ, [], List, codes, some, true, false, ◌∷◌, ◌≡◌, ◌↔◌, ◌<◌, ◌+◌, ◌-◌, refl, ok, error,
  if◌then◌else◌,
}
use win_vpwn.Memory
use win_vpwn.Memory.{empty_map}
use win_vpwn.Trace.{TraceRecord}
use win_vpwn.Vkernel.Guest.{zeroed}
use win_vpwn.Vkernel.Process.{falloff}
use win_vpwn.Syscall.Dispatch.{register, set_trace}
use win_vpwn.Syscall.Handlers.{register_all}
use win_vpwn.Syscall.Handlers.Stage1.{stage1}
use win_vpwn.Elf.{
  load_elf, load_parsed, load_segments, pt_loads, claim, read_contents, copy_to_front, file_bytes,
  slice_to,
}
use win_vpwn.Cpu.Engine.{Unicorn, Event, returned, unicorn_guest}
use win_vpwn.Cpu.Vcpu.{
  Vcpu, new_shared, new_vcpu, map_elf, map_segments, map_segment, engine_present, claim_range,
  call_engine, page_start, pages_size, map_stack, map_memory, setup_initial_state, stack_base,
  stack_size,
}
use win_vpwn.Cpu.Hook.{HookState, or_zero}
use win_vpwn.Cpu.Run.{run, begun, resumed}
use win_vpwn.Cpu.Run.AccessFaults.{NamesFault}
use win_vpwn.Cpu.Run.Steps.{Reaches}
use win_vpwn.Cpu.Run.Reports.{result}
use win_vpwn.Cpu.Run.Falloff.{run-falloff_iff}
use win_vpwn.Python.{boot, run_elf}
use win_vpwn.Python.Fallen.{fell_off, run_elf-falloff_iff}
use win_vpwn.Tests.Images.{image, file}
use win_vpwn.Tests.Machine.{Machine, machine, parser, set_reg}
use win_vpwn.Tests.Guest.{no_records}

abbrev pub fetch_error : Machine → Event (List ℕ) × Machine
fetch_error s =
    if s.halted
    then (returned (ok tt), s)
    else (returned (error (codes "UC_ERR_FETCH_UNMAPPED")), s)

pub fetch_error-halted :
    (s : Machine) → (fetch_error (record s { halted = true })).0 ≡ returned (ok tt)
fetch_error-halted s = refl

abbrev pub falling : Unicorn
falling = record (machine []) {
  resume = fetch_error;
  resume-emu_stop = λ s stopped. fetch_error-halted s;
}

abbrev set_up_engine : Machine
set_up_engine = record {
  regs = set_reg (set_reg (λ r. 0) 8 (stack_base + stack_size - 0x20)) 7 0x400000;
  program = [];
  halted = false;
}

abbrev ready : Vcpu falling
ready = record {
  uc = some set_up_engine;
  shared = new_shared;
  map = record {
    regions =
        record { base = 0x400000; size = 0x1000; prot = 5 }
        ∷ record { base = stack_base; size = stack_size; prot = 0 }
        ∷ [];
  };
  regions = (0x400000, 0x1000, 5) ∷ (stack_base, stack_size, 0) ∷ [];
  hook = stage1 (unicorn_guest falling) (some 0);
}

boots : boot falling (parser file) image 0 ≡ ok ready
unfolding boot load_elf load_parsed load_segments pt_loads claim Memory.insert read_contents zeroed
    copy_to_front new_vcpu register_all register set_trace map_elf engine_present map_segments
    map_segment claim_range call_engine page_start pages_size file_bytes slice_to map_stack
    map_memory setup_initial_state
boots = refl

run-falloff_iff_example :
    (result falling ready set_up_engine no_records 0 (run falling 1 0 ready no_records)
      ≡ some (ok (falloff 0x400000)))
    ↔ ((n : ℕ) × (h : HookState falling) × (e : List ℕ) × (n < 1)
        × Reaches falling ready.hook (begun falling ready set_up_engine no_records 0) n h
        × ((fetch_error h.engine).0 ≡ returned (error e))
        × NamesFault e
        × (0x400000 ≡ or_zero (falling.reg_read (resumed falling h).engine 7)))
run-falloff_iff_example =
    run-falloff_iff falling (some 0) ready set_up_engine no_records 0 refl refl refl 1 0x400000

run_elf-falloff_iff_example :
    ((records : List TraceRecord) × (run_elf falling (parser file) 1 0 no_records image 0
        ≡ some (ok (fell_off 0x400000 [] records))))
    ↔ ((n : ℕ) × (h : HookState falling) × (e : List ℕ) × (n < 1)
        × Reaches falling
            (stage1 (unicorn_guest falling) (some 0))
            (begun falling ready set_up_engine no_records 0)
            n
            h
        × ((fetch_error h.engine).0 ≡ returned (error e))
        × NamesFault e
        × (0x400000 ≡ or_zero (falling.reg_read (resumed falling h).engine 7))
        × ([] ≡ h.shared.output))
run_elf-falloff_iff_example =
    run_elf-falloff_iff falling (parser file) 0 1 0 no_records image ready set_up_engine boots refl
      0x400000 []
