-- ===== src/Cpu/Run/Panics.antt =====
-- A guest's syscall that makes the emulator itself panic.
use win_vpwn.Base.{
  ℕ, suc, ◌+◌, ◌-◌, ◌<◌, pos, true, ◌||◌, Option, some, ◌≡◌, refl, ap, ◌∙◌, inr, arith, panic, eq_ℤ,
  isize_max,
}
use win_vpwn.Trace.{Buffers, TraceSink}
use win_vpwn.Syscall.Dispatch.{get}
use win_vpwn.Syscall.Dispatch.Tracing.{dispatch_panicked}
use win_vpwn.Syscall.Handlers.{write_handler}
use win_vpwn.Syscall.Handlers.Stage1.{stage1, get-stage1, handle_write-panic}
use win_vpwn.Vkernel.Guest.{zeroed}
use win_vpwn.Cpu.Engine.{Unicorn, at_syscall, unicorn_guest, guest_read}
use win_vpwn.Cpu.Vcpu.{Vcpu}
use win_vpwn.Cpu.Hook.{HookState, syscall_hook, settle, hook_context}
use win_vpwn.Cpu.Hook.Effects.{regs, fd, hook_settles}
use win_vpwn.Cpu.Run.{run, begun, resumed, finish}
use win_vpwn.Cpu.Run.Steps.{Reaches, emulate-Reaches, emulate_crashed}
use win_vpwn.Cpu.Run.Reports.{run_loaded}

module _ (u : Unicorn) (trace : Option TraceSink) where
  pub guest_read-panic :
      (s : u.State) (addr len : ℕ) → isize_max < len → guest_read u s addr len ≡ panic
  unfolding guest_read zeroed
  guest_read-panic s addr len huge = ground arith

  pub hook-write_panic :
      (h : HookState u)
      → (regs u trace h).syscall_nr ≡ pos 1
      → (eq_ℤ (fd u trace h) (pos 1) || eq_ℤ (fd u trace h) (pos 2)) ≡ true
      → guest_read u h.engine (regs u trace h).arg1 (regs u trace h).arg2 ≡ panic
      → syscall_hook u (stage1 (unicorn_guest u) trace) h ≡ panic
  unfolding settle
  hook-write_panic h nr out panics =
      let r = regs u trace h in
      let handled = handle_write-panic (unicorn_guest u) (hook_context u h.engine) r out panics in
      let found : get (stage1 (unicorn_guest u) trace) r.syscall_nr
          ≡ some (write_handler (unicorn_guest u)) =
        get-stage1 (unicorn_guest u) trace r.syscall_nr ∙ rw nr refl in
      let dispatched =
        dispatch_panicked (stage1 (unicorn_guest u) trace) h.bufs (hook_context u h.engine) r _ _
          found handled in
      hook_settles u trace h _ _ _ dispatched

  -- A guest under stage 1 that comes to a write of more than isize::MAX bytes to descriptor 1 or 2
  -- makes the emulator panic, whatever its buffer.
  pub run-write_huge :
      (v : Vcpu u) (s : u.State) (bufs : Buffers) (timeout_ms fuel : ℕ) {n : ℕ} {h : HookState u}
      → v.uc ≡ some s
      → v.hook ≡ stage1 (unicorn_guest u) trace
      → Reaches u v.hook (begun u v s bufs timeout_ms) n h
      → (u.resume h.engine).0 ≡ at_syscall
      → (regs u trace (resumed u h)).syscall_nr ≡ pos 1
      → (eq_ℤ (fd u trace (resumed u h)) (pos 1) || eq_ℤ (fd u trace (resumed u h)) (pos 2)) ≡ true
      → isize_max < (regs u trace (resumed u h)).arg2
      → n < fuel
      → run u fuel timeout_ms v bufs ≡ some (panic, v, bufs)
  unfolding finish
  run-write_huge v s bufs timeout_ms fuel {n} {h} loaded stage reached at nr out huge enough =
      let left : n + suc (fuel - n - 1) ≡ fuel = omega arith in
      let panics =
        ap (λ d. syscall_hook u d (resumed u h)) stage
        ∙ hook-write_panic (resumed u h) nr out (guest_read-panic _ _ _ huge) in
      let ends =
        emulate-Reaches u v.hook (suc (fuel - n - 1)) fuel reached left
        ∙ emulate_crashed u v.hook (fuel - n - 1) h at (inr panics) in
      run_loaded u v s bufs timeout_ms fuel loaded ∙ ap (finish u v bufs) ends
