-- ===== src/Python/Traced.antt =====
-- The trace that `run_elf` returns.
use mathlib.Core.Option.{map as map_option}
use win_vpwn.Base.{
  some-injective, ℕ, suc, ◌^◌, ◌≤◌, ◌<◌, List, [], Bool-cases, Option, Option-cases, none, some,
  ◌==◌, Text, ◌≡◌, refl, sym, ap, subst, ◌∙◌, inl, inr, arith, Outcome, ok, error, panic,
  Outcome-cases, length, length-append, ℤ,
}
use win_vpwn.Trace.{Buffers, TraceSink, TraceRecord, SyscallOutcome, Args, push_record, drain}
use win_vpwn.Trace.Numbered.{IsNumberedFrom, IsNumberedFrom-append}
use win_vpwn.Vkernel.{Context}
use win_vpwn.Syscall.Dispatch.{
  Dispatch, SyscallRegs, DispatchError, dispatch, trace_outcome, handle_with, get,
}
use win_vpwn.Elf.Format.{Goblin}
use win_vpwn.Cpu.Engine.{Unicorn}
use win_vpwn.Cpu.Hook.{HookState, syscall_hook, settle, hook_context, read_regs}
use win_vpwn.Cpu.Vcpu.{Vcpu, VcpuError, output}
use win_vpwn.Vkernel.Process.{ExitReason, exit, falloff, stopped}
use win_vpwn.Cpu.Run.Steps.{Reaches, here, next, syscall, emulate-ended}
use win_vpwn.Cpu.Run.{Emulated, ended, emulate, run, finish, resumed, crashed, unfinished, begun}
use win_vpwn.Cpu.Run.Reports.{run_loaded, run_gone}
use win_vpwn.Python.{RunResult, run_elf, run_booted, collect, run_result, boot}

-- The records are numbered from 0, and there are at most `n`.
IsTrace : ℕ → List TraceRecord → Type 0
IsTrace n rs = IsNumberedFrom 0 rs × (length rs ≤ n)

push_record-IsTrace :
    (n : ℕ) (bufs : Buffers) (s sink : TraceSink) (name : Text) (nr : ℤ) (args : Args) (rip : ℕ)
    (outcome : SyscallOutcome)
    → n < 2 ^ 64
    → IsTrace n (bufs sink)
    → IsTrace (suc n) (push_record bufs s name nr args rip outcome sink)
unfolding push_record IsTrace
push_record-IsTrace n bufs s sink name nr args rip outcome fits (numbered, short) =
    elim (Bool-cases (sink == s)) [
      | inl same ↦
          let e : sink ≡ s = ground arith in
          let numbered' = subst (λ k. IsNumberedFrom 0 (bufs k)) e numbered in
          let short' : length (bufs s) ≤ n = subst (λ k. length (bufs k) ≤ n) e short in
          rw same (
            IsNumberedFrom-append 0 (bufs s) _ numbered' (omega (arith, short')),
            rw (length-append (bufs s)) (omega (arith, short')),
          )
      | inr other ↦ rw other (numbered, omega (arith, short))
    ]

trace_outcome-IsTrace :
    (n : ℕ) (trace : Option TraceSink) (bufs : Buffers) (sink : TraceSink) (name : Text)
    (regs : SyscallRegs) (outcome : SyscallOutcome)
    → n < 2 ^ 64
    → IsTrace n (bufs sink)
    → IsTrace (suc n) (trace_outcome trace bufs name regs outcome sink)
unfolding IsTrace
trace_outcome-IsTrace n none bufs sink name regs outcome fits t = (t.0, omega (arith, t.1))
trace_outcome-IsTrace n (some s) bufs sink name regs outcome fits t =
    push_record-IsTrace n bufs s sink name _ _ _ outcome fits t

dispatch-IsTrace :
    {M : Type 0} (d : Dispatch M) (n : ℕ) (bufs : Buffers) (sink : TraceSink) (ctx : Context M)
    (regs : SyscallRegs)
    → n < 2 ^ 64
    → IsTrace n (bufs sink)
    → IsTrace (suc n) ((dispatch d bufs ctx regs).2 sink)
unfolding dispatch IsTrace
dispatch-IsTrace d n bufs sink ctx regs fits t =
    elim (Outcome-cases (handle_with (get d regs.syscall_nr) ctx regs).0) [
      | inl (outcome, e) ↦
          rw (e, dispatch) (trace_outcome-IsTrace n d.trace bufs sink _ regs outcome fits t)
      | inr (inl (x, e)) ↦ rw (e, dispatch) (t.0, omega (arith, t.1))
      | inr (inr e) ↦ rw (e, dispatch) (t.0, omega (arith, t.1))
    ]

module _ (u : Unicorn) where
  settle-bufs :
      (r : Outcome DispatchError SyscallOutcome) (h h' : HookState u)
      → settle u r h ≡ ok h'
      → h'.bufs ≡ h.bufs
  unfolding settle
  settle-bufs (ok (SyscallOutcome.return ret)) h h' e = ground arith
  settle-bufs (ok (SyscallOutcome.exit reason)) h h' e = ground arith
  settle-bufs (error x) h h' e = ground arith
  settle-bufs panic h h' e = cc

  syscall_hook-IsTrace :
      (d : Dispatch u.State) (n : ℕ) (h h' : HookState u) (sink : TraceSink)
      → syscall_hook u d h ≡ ok h'
      → n < 2 ^ 64
      → IsTrace n (h.bufs sink)
      → IsTrace (suc n) (h'.bufs sink)
  unfolding syscall_hook
  syscall_hook-IsTrace d n h h' sink e fits t =
      let same = settle-bufs _ _ h' e in
      rw same
        (dispatch-IsTrace d n h.bufs sink (hook_context u h.engine) (read_regs u h.engine) fits t)

  Reaches-IsTrace :
      (d : Dispatch u.State) (h : HookState u) (sink : TraceSink) (n : ℕ) {h' : HookState u}
      → Reaches u d h n h'
      → n ≤ 2 ^ 64
      → h.bufs sink ≡ []
      → IsTrace n (h'.bufs sink)
  unfolding IsTrace
  Reaches-IsTrace d h sink n here fits e = rw e (tt, omega arith)
  Reaches-IsTrace d h sink (suc n) (next {h'} {h''} r (syscall at hooked)) fits e =
      syscall_hook-IsTrace d n (resumed u h') h'' sink hooked (omega arith)
        (Reaches-IsTrace d h sink n r (omega arith) e)

  module _ (v v' : Vcpu u) (bufs bufs' : Buffers) (sink : TraceSink)
      (r : Outcome VcpuError ExitReason) (empty : bufs sink ≡ []) where
    finish-IsTrace :
        (fuel : ℕ) (h : HookState u) (end : Emulated u)
        → emulate u fuel v.hook h ≡ end
        → h.bufs sink ≡ []
        → finish u v bufs end ≡ some (r, v', bufs')
        → fuel ≤ 2 ^ 64
        → IsTrace fuel (bufs' sink)
    unfolding finish IsTrace
    finish-IsTrace fuel h (ended e last) ends start done fits =
        let (n, at, less, reached, back, same) = emulate-ended u v.hook fuel h last e ends in
        let t = Reaches-IsTrace v.hook h sink n reached (omega arith) start in
        let left : bufs' ≡ at.bufs = ground (arith, same) in rw left (t.0, omega (arith, t.1))
    finish-IsTrace fuel h crashed ends start done fits =
        let left : bufs' ≡ bufs = ground arith in rw (left, empty) (tt, omega arith)
    finish-IsTrace fuel h unfinished ends start done fits = cc

    -- With at most 2^64 units of fuel and a sink that is empty at the start, a run that ends leaves
    -- a trace that is numbered from 0 and has no more records than the fuel.
    pub run-trace :
        (fuel timeout_ms : ℕ) (s : u.State)
        → v.uc ≡ some s
        → run u fuel timeout_ms v bufs ≡ some (r, v', bufs')
        → fuel ≤ 2 ^ 64
        → IsNumberedFrom 0 (bufs' sink) × (length (bufs' sink) ≤ fuel)
    unfolding IsTrace
    run-trace fuel timeout_ms s loaded ran fits =
        finish-IsTrace fuel (begun u v s bufs timeout_ms) _ refl empty
          (sym (run_loaded u v s bufs timeout_ms fuel loaded) ∙ ran) fits

run_result-trace :
    (reason : ExitReason) (out : List ℕ) (records : List TraceRecord)
    → (run_result reason out records).trace ≡ records
unfolding run_result
run_result-trace (exit code) out records = refl
run_result-trace (falloff rip) out records = refl
run_result-trace stopped out records = refl

module _ (u : Unicorn) (goblin : Goblin) where
  collect-trace :
      (sink : TraceSink) (reason : Outcome VcpuError ExitReason) (v : Vcpu u) (bufs : Buffers)
      (res : RunResult)
      → collect u goblin sink (reason, v, bufs) ≡ ok res
      → res.trace ≡ bufs sink
  unfolding collect drain
  collect-trace sink (ok reason) v bufs res done =
      let same : run_result reason (output u v) (bufs sink) ≡ res = ground arith in
      ap (λ (r : RunResult). r.trace) (sym same) ∙ run_result-trace reason (output u v) (bufs sink)
  collect-trace sink (error e) v bufs res done = cc
  collect-trace sink panic v bufs res done = cc

  run_booted-trace :
      (fuel timeout_ms : ℕ) (sink : TraceSink) (bufs : Buffers) (booted : Outcome Text (Vcpu u))
      (res : RunResult)
      → bufs sink ≡ []
      → run_booted u goblin fuel timeout_ms sink bufs booted ≡ some (ok res)
      → fuel ≤ 2 ^ 64
      → IsTrace fuel res.trace
  unfolding run_booted IsTrace
  run_booted-trace fuel timeout_ms sink bufs (error e) res empty done fits = cc
  run_booted-trace fuel timeout_ms sink bufs panic res empty done fits = cc
  run_booted-trace fuel timeout_ms sink bufs (ok v) res empty done fits =
      elim (Option-cases (run u fuel timeout_ms v bufs)) [
        | inl e ↦ cc (sym (ap (map_option (collect u goblin sink)) e) ∙ done)
        | inr ((reason, v', bufs'), e) ↦
            let collected : collect u goblin sink (reason, v', bufs') ≡ ok res =
              some-injective (sym (ap (map_option (collect u goblin sink)) e) ∙ done) in
            let same = collect-trace sink reason v' bufs' res collected in
            elim (Option-cases v.uc) [
              | inl gone ↦
                  let short : length {A = TraceRecord} [] ≤ fuel = omega arith in
                  let crashed_run : some (panic, v, bufs) ≡ some (reason, v', bufs') =
                    sym (run_gone u v bufs timeout_ms fuel gone) ∙ e in
                  let left : bufs' ≡ bufs = ground (arith, crashed_run) in
                  rw (same, left, empty) (tt, short)
              | inr (s, loaded) ↦
                  rw same
                    (run-trace u v v' bufs bufs' sink reason empty fuel timeout_ms s loaded e fits)
            ]
      ]

  -- With at most 2^64 units of fuel, what `run_elf` returns has a trace that is numbered from 0 and
  -- has no more records than the fuel.
  pub run_elf-trace :
      (fuel timeout_ms : ℕ) (sink : TraceSink) (bufs : Buffers) (image : List ℕ) (res : RunResult)
      → bufs sink ≡ []
      → run_elf u goblin fuel sink bufs image timeout_ms ≡ some (ok res)
      → fuel ≤ 2 ^ 64
      → IsNumberedFrom 0 res.trace × (length res.trace ≤ fuel)
  unfolding run_elf IsTrace
  run_elf-trace fuel timeout_ms sink bufs image res empty done fits =
      run_booted-trace fuel timeout_ms sink bufs (boot u goblin image sink) res empty done fits
