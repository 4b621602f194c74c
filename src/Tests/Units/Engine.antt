-- ===== src/Tests/Units/Engine.antt =====
-- The unit tests of cpu/unicorn_engine.rs, run with the test machine as the engine.
use win_vpwn.Base.{
  ℕ, List, [], ◌∷◌, ◌++◌, true, ◌≡◌, refl, codes, Text, Outcome, ok, error, length, ◌==◌,
  if◌then◌else◌, arith,
}
use win_vpwn.Memory
use win_vpwn.Vkernel.Guest.{zeroed}
use win_vpwn.Vkernel.Capture
use win_vpwn.Vkernel.Capture.{combined}
use win_vpwn.Syscall.Dispatch.{register, dispatch, get}
use win_vpwn.Syscall.Handlers.{register_all, handle_write, handle_exit}
use win_vpwn.Elf.{
  load_elf, load_parsed, load_segments, pt_loads, claim, read_contents, copy_to_front, file_bytes,
  slice_to,
}
use win_vpwn.Cpu.Engine.{Unicorn, guest_read}
use win_vpwn.Cpu.Vcpu.{
  new_vcpu, map_elf, map_segments, map_segment, engine_present, engine_loaded, claim_range,
  call_engine, page_start, pages_size, map_stack, map_memory, write_guest, set_reg, reg, output,
  setup_initial_state,
}
use win_vpwn.Cpu.Hook.{syscall_hook, settle, read_regs}
use win_vpwn.Cpu.Run.{run, emulate, finish, report}
use win_vpwn.Tests.Units.Fixture.{
  maps_and_runs_hello, stack_layout_is_zeroed, run_falls_off_image_returns_falloff,
}
use win_vpwn.Tests.Machine.{Machine, machine, parser}
use win_vpwn.Tests.Guest.{no_records}
use win_vpwn.Tests.Images.{image, file}
use win_vpwn.Tests.Falling.{falling}

stack_layout_is_zeroed_passes : stack_layout_is_zeroed (machine []) no_records 1 ≡ true
unfolding new_vcpu map_stack map_memory engine_present claim_range Memory.insert call_engine
    setup_initial_state reg
stack_layout_is_zeroed_passes = refl

run_falls_off_image_returns_falloff_passes :
    run_falls_off_image_returns_falloff falling no_records 1 ≡ true
unfolding new_vcpu map_stack map_memory engine_present engine_loaded claim_range Memory.insert
    call_engine write_guest set_reg run emulate finish report
run_falls_off_image_returns_falloff_passes = refl

-- The machine with a greeting in its memory: what the guest writes is that.
abbrev greeting : Text
greeting = codes "hello, winVpwn" ++ 10 ∷ []

abbrev read_greeting : Machine → ℕ → ℕ → Outcome Text (List ℕ)
read_greeting s addr len = if len == 15 then ok greeting else error (codes "READ_UNMAPPED")

read_greeting-length :
    (s : Machine) (addr len : ℕ) (bytes : List ℕ)
    → read_greeting s addr len ≡ ok bytes
    → length bytes ≡ len
read_greeting-length s addr len bytes h = ground arith

abbrev greeting_machine : Unicorn
greeting_machine = record (machine ((1, 1, 0x2000, 15) ∷ (60, 0, 0, 0) ∷ [])) {
  mem_read = read_greeting;
  mem_read_length = read_greeting-length;
}

maps_and_runs_hello_passes :
    maps_and_runs_hello greeting_machine no_records 3 (parser file) image ≡ true
unfolding load_elf load_parsed load_segments pt_loads claim Memory.insert read_contents zeroed
    copy_to_front new_vcpu register_all register map_elf engine_present map_segments map_segment
    claim_range call_engine page_start pages_size file_bytes slice_to map_stack map_memory
    setup_initial_state run emulate syscall_hook settle dispatch get handle_write handle_exit
    read_regs guest_read combined Capture.write finish report output
maps_and_runs_hello_passes = refl
