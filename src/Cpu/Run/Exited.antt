-- ===== src/Cpu/Run/Exited.antt =====
-- What an exit code that `run` returns says of the guest.
use win_vpwn.Base.{
  ℕ, suc, ◌<◌, ◌%◌, pos, List, Option, Option-cases, none, some, some-injective, ◌≡◌, refl, sym, ap,
  subst, ◌∙◌, ◌⊎◌, inl, inr, arith, Done, Outcome, ok, error, panic, ℤ, signed64, eq_ℤ, eq_ℤ_iff,
  Bool-cases,
}
use win_vpwn.Trace.{Buffers, TraceSink}
use win_vpwn.Vkernel.Process.{exit}
use win_vpwn.Syscall.Handlers.Stage1.{stage1}
use win_vpwn.Syscall.Dispatch.{SyscallRegs}
use win_vpwn.Vkernel.Guest.{GuestMemError}
use win_vpwn.Cpu.Engine.{Unicorn, at_syscall, unicorn_guest}
use win_vpwn.Cpu.Vcpu.{Vcpu, SharedState}
use win_vpwn.Cpu.Hook.{HookState, read_regs}
use win_vpwn.Cpu.Run.{
  Emulated, ended, crashed, unfinished, emulate, resumed, report, report_shared, is_falloff, finish,
  run, begun,
}
use win_vpwn.Cpu.Run.Steps.{syscall, Reaches, here, next, emulate-ended}
use win_vpwn.Cpu.Run.Reports.{run_loaded}
use win_vpwn.Cpu.Run.Observed.{
  Effect, write_effect, captures, answers, ends, faults, effect, perform, performed, observed,
  effect_at, hook_refines,
}

perform-exit :
    (e : Effect) (s : SharedState) (code : ℕ)
    → (perform e s).exit_reason ≡ some (exit code)
    → (e ≡ ends code) ⊎ (s.exit_reason ≡ some (exit code))
perform-exit (captures bytes) s code h = inr h
perform-exit answers s code h = inr h
perform-exit (ends c) s code h = let same : c ≡ code = ground (arith, h) in inl (ap ends same)
perform-exit faults s code h = inr h

write_effect-ends :
    (fd : ℤ) (buffer : Outcome GuestMemError (List ℕ)) (code : ℕ)
    → write_effect fd buffer ≡ some (ends code)
    → ⊥
write_effect-ends fd (ok bytes) code h = ground arith
write_effect-ends fd (error e) code h = ground arith
write_effect-ends fd panic code h = ground arith

effect-ends :
    (r : SyscallRegs) (buffer : Outcome GuestMemError (List ℕ)) (code : ℕ)
    → effect r buffer ≡ some (ends code)
    → ((r.syscall_nr ≡ pos 60) ⊎ (r.syscall_nr ≡ pos 231)) × (code ≡ r.arg0 % 256)
effect-ends r buffer code h = elim (Bool-cases (eq_ℤ (pos 1) r.syscall_nr)) [
  | inl is_write ↦ absurd (write_effect-ends (signed64 r.arg0) buffer code (rw is_write at h))
  | inr a ↦ elim (Bool-cases (eq_ℤ (pos 60) r.syscall_nr)) [
    | inl is_exit ↦
        let value : code ≡ r.arg0 % 256 = ground (arith, rw (a, is_exit) at h) in
        (inl (sym ((eq_ℤ_iff (pos 60) r.syscall_nr).0 is_exit)), value)
    | inr b ↦ elim (Bool-cases (eq_ℤ (pos 231) r.syscall_nr)) [
      | inl is_group ↦
          let value : code ≡ r.arg0 % 256 = ground (arith, rw (a, b, is_group) at h) in
          (inr (sym ((eq_ℤ_iff (pos 231) r.syscall_nr).0 is_group)), value)
      | inr c ↦ cc (rw (a, b, c) at h)
    ]
  ]
]

module _ (u : Unicorn) (trace : Option TraceSink) where
  -- The guest stands at an `exit` or `exit_group` with this code.
  Exits : HookState u → ℕ → Type 0
  Exits h code =
      ((u.resume h.engine).0 ≡ at_syscall)
      × (((read_regs u (resumed u h).engine).syscall_nr ≡ pos 60)
          ⊎ ((read_regs u (resumed u h).engine).syscall_nr ≡ pos 231))
      × (code ≡ (read_regs u (resumed u h).engine).arg0 % 256)

  Reaches-Exits :
      (h : HookState u) (code : ℕ) {n : ℕ} {h' : HookState u}
      → Reaches u (stage1 (unicorn_guest u) trace) h n h'
      → h.shared.exit_reason ≡ none
      → h'.shared.exit_reason ≡ some (exit code)
      → (m : ℕ) × (at : HookState u) × (m < n)
        × Reaches u (stage1 (unicorn_guest u) trace) h m at
        × Exits at code
  unfolding Exits
  Reaches-Exits h code here before after = cc (sym before ∙ after)
  Reaches-Exits h code (next {n} {h' = g} {h''} reached (syscall at hooked)) before after =
      let step = sym (ap (observed u trace) hooked) ∙ hook_refines u trace (resumed u g) in
      elim (Option-cases (effect_at u trace (resumed u g))) [
        | inl none_there ↦ cc (step ∙ ap (λ o. performed o g.shared) none_there)
        | inr (e, there) ↦
            let same : h''.shared ≡ perform e g.shared =
              some-injective (step ∙ ap (λ o. performed o g.shared) there) in
            elim (perform-exit e g.shared code
              (sym (ap (λ (s : SharedState). s.exit_reason) same) ∙ after)) [
                | inl exits ↦
                    let (nr, value) =
                      effect-ends (read_regs u (resumed u g).engine) _ code
                        (there ∙ ap some exits) in
                    (n, g, omega arith, reached, (at, nr, value))
                | inr earlier ↦
                    let (m, last, less, r, exits) = Reaches-Exits h code reached before earlier in
                    (m, last, omega (arith, less), r, exits)
              ]
      ]

report_shared-exit :
    (u : Unicorn) (s : SharedState) (code : ℕ)
    → report_shared u s ≡ ok (exit code)
    → s.exit_reason ≡ some (exit code)
report_shared-exit u s code h = ground arith

report-exit :
    (u : Unicorn) (r : Outcome u.UcError Done) (h : HookState u) (code : ℕ)
    → report u r h ≡ ok (exit code)
    → h.shared.exit_reason ≡ some (exit code)
unfolding report
report-exit u (ok done) h code e = report_shared-exit u h.shared code e
report-exit u panic h code e = cc
report-exit u (error x) h code e = elim (Bool-cases (is_falloff (u.error_text x))) [
  | inl off ↦ cc (rw off at e)
  | inr other ↦ cc (rw other at e)
]

module _ (u : Unicorn) (trace : Option TraceSink) (v : Vcpu u) (bufs : Buffers) where
  finish-Exits :
      (fuel code : ℕ) (h : HookState u) (end : Emulated u) (v' : Vcpu u) (bufs' : Buffers)
      → v.hook ≡ stage1 (unicorn_guest u) trace
      → h.shared.exit_reason ≡ none
      → emulate u fuel v.hook h ≡ end
      → finish u v bufs end ≡ some (ok (exit code), v', bufs')
      → (m : ℕ) × (at : HookState u) × (suc m < fuel)
        × Reaches u (stage1 (unicorn_guest u) trace) h m at
        × Exits u trace at code
  unfolding finish
  finish-Exits fuel code h (ended e last) v' bufs' stage before went done =
      let (n, at, less, reached, back, same) = emulate-ended u v.hook fuel h last e went in
      let reported : report u e last ≡ ok (exit code) = ap (λ p. p.0) (some-injective done) in
      let after : at.shared.exit_reason ≡ some (exit code) =
        sym (ap (λ (g : HookState u). g.shared.exit_reason) same)
        ∙ report-exit u e last code reported in
      let reached' = subst (λ d. Reaches u d h n at) stage reached in
      let (m, last_at, before_end, r, exits) = Reaches-Exits u trace h code reached' before after in
      (m, last_at, omega (arith, before_end, less), r, exits)
  finish-Exits fuel code h crashed v' bufs' stage before went done = cc
  finish-Exits fuel code h unfinished v' bufs' stage before went done = cc

  -- Of a CPU under stage 1 that has no exit reason yet, `run` returns an exit code only if the
  -- guest, after some number of syscalls that the fuel allows, came to an `exit` or `exit_group`
  -- whose argument has that code as its low byte.
  pub run-exit_only :
      (fuel timeout_ms code : ℕ) (s : u.State) (v' : Vcpu u) (bufs' : Buffers)
      → v.uc ≡ some s
      → v.hook ≡ stage1 (unicorn_guest u) trace
      → v.shared.exit_reason ≡ none
      → run u fuel timeout_ms v bufs ≡ some (ok (exit code), v', bufs')
      → (m : ℕ) × (h : HookState u) × (suc m < fuel)
        × Reaches u (stage1 (unicorn_guest u) trace) (begun u v s bufs timeout_ms) m h
        × ((u.resume h.engine).0 ≡ at_syscall)
        × (((read_regs u (resumed u h).engine).syscall_nr ≡ pos 60)
            ⊎ ((read_regs u (resumed u h).engine).syscall_nr ≡ pos 231))
        × (code ≡ (read_regs u (resumed u h).engine).arg0 % 256)
  unfolding Exits
  run-exit_only fuel timeout_ms code s v' bufs' loaded stage before ran =
      let (m, h, fits, r, exits) =
        finish-Exits fuel code (begun u v s bufs timeout_ms) _ v' bufs' stage before refl
          (sym (run_loaded u v s bufs timeout_ms fuel loaded) ∙ ran) in
      (m, h, fits, r, exits.0, exits.1, exits.2)
