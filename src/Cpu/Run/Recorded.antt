-- ===== src/Cpu/Run/Recorded.antt =====
-- The trace of a run under stage 1: a record for each syscall that does not fail.
use win_vpwn.Base.{
  ℕ, ◌%◌, ℤ, pos, List, [], ◌∷◌, ◌++◌, map, append-nil, append_assoc, ◌||◌, Option, none, some,
  codes, Text, ◌≡◌, refl, sym, ap, ◌∙◌, arith, Outcome, ok, error, panic, eq_ℤ, signed64,
  if◌then◌else◌, ==_iff,
}
use win_vpwn.Trace.{SyscallOutcome, TraceSink, TraceRecord, Buffers, traced_ret, push_record}
use win_vpwn.Trace.Histories.{unnumbered, map-append}
use win_vpwn.Vkernel.Process.{ExitReason}
use win_vpwn.Vkernel.Guest.{GuestMemError}
use win_vpwn.Syscall.Errno.{err, enosys, ebadf}
use win_vpwn.Syscall.Dispatch.{SyscallRegs, trace_outcome}
use win_vpwn.Syscall.Handlers.Stage1.{stage1}
use win_vpwn.Cpu.Engine.{Unicorn, unicorn_guest, guest_read}
use win_vpwn.Cpu.Hook.{HookState, read_regs}
use win_vpwn.Cpu.Hook.Flat.{flat_hook, hook-flat}
use win_vpwn.Cpu.Run.{resumed}
use win_vpwn.Cpu.Run.Steps.{syscall, Reaches, here, next}

-- The name and the outcome that the trace has of a syscall, by what reading its buffer gives; a
-- `write` whose buffer cannot be read has none.
abbrev pub write_entry :
    SyscallRegs → Outcome GuestMemError (List ℕ) → Option (Text × SyscallOutcome)
write_entry r buffer =
    if eq_ℤ (signed64 r.arg0) (pos 1) || eq_ℤ (signed64 r.arg0) (pos 2)
    then elim buffer [
      | ok bytes ↦ some (codes "write", SyscallOutcome.return (pos r.arg2))
      | error e ↦ none
      | panic ↦ none
    ]
    else some (codes "write", SyscallOutcome.return (err ebadf))

abbrev pub entry : SyscallRegs → Outcome GuestMemError (List ℕ) → Option (Text × SyscallOutcome)
entry r buffer =
    let reason = ExitReason.exit (r.arg0 % 256) in
    if eq_ℤ (pos 1) r.syscall_nr
    then write_entry r buffer
    else if eq_ℤ (pos 60) r.syscall_nr
    then some (codes "exit", SyscallOutcome.exit reason)
    else if eq_ℤ (pos 231) r.syscall_nr
    then some (codes "exit_group", SyscallOutcome.exit reason)
    else some (codes "<unimplemented>", SyscallOutcome.return (err enosys))

-- A syscall that ends the process has no value.
abbrev pub value : SyscallOutcome → ℤ
value (SyscallOutcome.return ret) = ret
value (SyscallOutcome.exit reason) = pos 0

traced_ret-value : (outcome : SyscallOutcome) → traced_ret outcome ≡ value outcome
traced_ret-value (SyscallOutcome.return ret) = refl
traced_ret-value (SyscallOutcome.exit reason) = refl

-- The record of it, numbers aside.
abbrev pub line : SyscallRegs → Text × SyscallOutcome → TraceRecord
line r (name, outcome) = record {
  seq = 0;
  nr = r.syscall_nr;
  name = name;
  args = (r.arg0, r.arg1, r.arg2, r.arg3, r.arg4, r.arg5);
  ret = value outcome;
  rip = r.rip;
}

abbrev pub lines : SyscallRegs → Option (Text × SyscallOutcome) → List TraceRecord
lines r none = []
lines r (some e) = line r e ∷ []

abbrev pub logged :
    Option TraceSink → Buffers → SyscallRegs → Option (Text × SyscallOutcome) → Buffers
logged trace bufs r none = bufs
logged trace bufs r (some (name, outcome)) = trace_outcome trace bufs name r outcome

logged-lines :
    (sink : TraceSink) (bufs : Buffers) (r : SyscallRegs) (e : Option (Text × SyscallOutcome))
    → map unnumbered (logged (some sink) bufs r e sink) ≡ map unnumbered (bufs sink) ++ lines r e
unfolding push_record
logged-lines sink bufs r none = sym (append-nil _)
logged-lines sink bufs r (some (name, outcome)) =
    rw ((==_iff sink sink).1 refl, sym (traced_ret-value outcome))
      (map-append unnumbered (bufs sink) _)

module _ (u : Unicorn) where
  abbrev pub entry_at : HookState u → Option (Text × SyscallOutcome)
  entry_at h = let r = read_regs u h.engine in entry r (guest_read u h.engine r.arg1 r.arg2)

  flat-logged :
      (trace : Option TraceSink) (h h' : HookState u) (nr : ℤ)
      (buffer : Outcome GuestMemError (List ℕ))
      → (read_regs u h.engine).syscall_nr ≡ nr
      → guest_read u h.engine (read_regs u h.engine).arg1 (read_regs u h.engine).arg2 ≡ buffer
      → flat_hook u trace h ≡ ok h'
      → h'.bufs ≡ logged trace h.bufs (read_regs u h.engine) (entry_at h)
  unfolding flat_hook
  flat-logged trace h h' nr buffer at read done = ground (arith, at, read, done)

  module _ (sink : TraceSink) where
    -- The records of the guest's syscalls, in order.
    unfoldable pub recorded :
        {h : HookState u} {n : ℕ} {h' : HookState u}
        → Reaches u (stage1 (unicorn_guest u) (some sink)) h n h'
        → List TraceRecord
    recorded here = []
    recorded (next {h'} reached step) =
        recorded reached ++ lines (read_regs u (resumed u h').engine) (entry_at (resumed u h'))

    -- Along a run under stage 1 with a sink the trace grows by exactly the records of the guest's syscalls that do
    -- not fail, in order, numbers aside: what each was called with, where, and what it returned.
    pub Reaches-recorded :
        (h : HookState u) {n : ℕ} {h' : HookState u}
        (r : Reaches u (stage1 (unicorn_guest u) (some sink)) h n h')
        → map unnumbered (h'.bufs sink) ≡ map unnumbered (h.bufs sink) ++ recorded r
    unfolding recorded
    Reaches-recorded h here = sym (append-nil _)
    Reaches-recorded h (next {h'} {h''} reached (syscall at hooked)) =
        let before = Reaches-recorded h reached in
        let g = resumed u h' in
        let grown =
          flat-logged (some sink) g h'' _ _ refl refl (sym (hook-flat u (some sink) g) ∙ hooked) in
        ap (λ (b : Buffers). map unnumbered (b sink)) grown
        ∙ logged-lines sink h'.bufs (read_regs u g.engine) (entry_at g)
        ∙ ap (λ rs. rs ++ lines (read_regs u g.engine) (entry_at g)) before
        ∙ append_assoc (map unnumbered (h.bufs sink)) (recorded reached) _
