-- ===== src/Python/Faulted.antt =====
-- When `run_elf` raises an exception for a guest that it has started.
use mathlib.Core.Option.{map as map_option}
use win_vpwn.Base.{
  ℕ, suc, ◌<◌, List, none, some, codes, true, ◌≡◌, ◌||◌, refl, sym, ap, subst, ◌∙◌, ok, error, pos,
  eq_ℤ, signed64,
}
use win_vpwn.Trace.{Buffers, TraceSink}
use win_vpwn.Vkernel.Guest.{GuestMemError}
use win_vpwn.Syscall.Dispatch.{dispatch_error_text, engine}
use win_vpwn.Syscall.Handlers.Stage1.{stage1}
use win_vpwn.Elf.Format.{Goblin}
use win_vpwn.Cpu.Engine.{Unicorn, at_syscall, unicorn_guest, guest_read}
use win_vpwn.Cpu.Vcpu.{Vcpu, vcpu_error_text, exec}
use win_vpwn.Cpu.Hook.{HookState, read_regs}
use win_vpwn.Cpu.Hook.Effects.{hook-write_unreadable}
use win_vpwn.Cpu.Run.{resumed, begun, report}
use win_vpwn.Cpu.Run.Steps.{Reaches, syscall, next}
use win_vpwn.Cpu.Run.Reports.{run-ended}
use win_vpwn.Python.{run_elf, collect, boot}
use win_vpwn.Python.Fallen.{stage, run_elf-booted}

-- The text of a fault of a guest's read.
abbrev pub read_fault : List ℕ
read_fault = dispatch_error_text (engine (codes "guest memory read failed"))

-- What the hook leaves at a `write` whose buffer cannot be read.
abbrev faulted : (u : Unicorn) → HookState u → HookState u
faulted u h = record h {
  engine = (u.emu_stop h.engine).1;
  shared = record h.shared { engine_error = some read_fault };
}

module _ (u : Unicorn) (goblin : Goblin) (sink : TraceSink) where
  -- A guest that the setup started, that after `n` syscalls of stage 1 without an exit makes a `write`
  -- to descriptor 1 or 2 of a buffer that cannot be read, ends `run_elf` with an exception when the
  -- engine can be stopped and the fuel is more than `n + 1`: an execution error with the text of the
  -- fault. What was captured before is lost, and so is the trace.
  pub run_elf-write_unreadable :
      (fuel timeout_ms : ℕ) (bufs : Buffers) (image : List ℕ) (v : Vcpu u) (s : u.State)
      (e : GuestMemError) {n : ℕ} {h : HookState u}
      (r : Reaches u (stage1 (unicorn_guest u) (some sink)) (begun u v s bufs timeout_ms) n h)
      → boot u goblin image sink ≡ ok v
      → v.uc ≡ some s
      → h.shared.exit_reason ≡ none
      → (u.resume h.engine).0 ≡ at_syscall
      → (read_regs u (resumed u h).engine).syscall_nr ≡ pos 1
      → (eq_ℤ (signed64 (read_regs u (resumed u h).engine).arg0) (pos 1)
          || eq_ℤ (signed64 (read_regs u (resumed u h).engine).arg0) (pos 2))
        ≡ true
      → guest_read u
          (resumed u h).engine
          (read_regs u (resumed u h).engine).arg1
          (read_regs u (resumed u h).engine).arg2
        ≡ error e
      → (u.emu_stop (resumed u h).engine).0 ≡ ok tt
      → suc n < fuel
      → run_elf u goblin fuel sink bufs image timeout_ms
        ≡ some (error (vcpu_error_text (exec read_fault)))
  unfolding collect report
  run_elf-write_unreadable fuel timeout_ms bufs image v s e {n} {h} r booted loaded running at nr
        out unreadable stops enough =
      let last =
        syscall at (hook-write_unreadable u (some sink) (resumed u h) e nr out unreadable) in
      let hook = stage u goblin sink fuel timeout_ms bufs image v s booted loaded in
      let all =
        subst (λ d. Reaches u d (begun u v s bufs timeout_ms) (suc n) (faulted u (resumed u h)))
          (sym hook) (next r last) in
      let back = u.resume-emu_stop (resumed u h).engine stops in
      let ran = run-ended u v s bufs timeout_ms fuel (ok tt) loaded all back enough in
      run_elf-booted u goblin sink fuel timeout_ms bufs image v s booted loaded
      ∙ ap (map_option (collect u goblin sink)) ran
      ∙ rw running refl
