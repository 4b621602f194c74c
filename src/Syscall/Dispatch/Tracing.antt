-- ===== src/Syscall/Dispatch/Tracing.antt =====
-- What a dispatch leaves in the trace.
use win_vpwn.Base.{none, some, ◌≡◌, ◌≢◌, refl, arith, codes, Outcome, ok, error, panic}
use win_vpwn.Trace.{SyscallOutcome, Buffers}
use win_vpwn.Vkernel.{Context}
use win_vpwn.Syscall.Errno.{err, enosys}
use win_vpwn.Syscall.Dispatch.{
  SyscallRegs, DispatchError, SyscallHandler, Dispatch, get, dispatch, handle_with, trace_outcome,
}

module _ {M : Type 0} (d : Dispatch M) (bufs : Buffers) (ctx : Context M) (regs : SyscallRegs) where
  -- How a dispatch goes, once it is known what the handler returns.
  pub dispatch_handled :
      (handler : SyscallHandler M) (outcome : SyscallOutcome) (ctx' : Context M)
      → get d regs.syscall_nr ≡ some handler
      → handler.handle ctx regs ≡ (ok outcome, ctx')
      → dispatch d bufs ctx regs
        ≡ (ok outcome, ctx', trace_outcome d.trace bufs handler.name regs outcome)
  unfolding dispatch
  dispatch_handled handler outcome ctx' found handled = ground (arith, found, handled)

  pub dispatch_failed :
      (handler : SyscallHandler M) (e : DispatchError) (ctx' : Context M)
      → get d regs.syscall_nr ≡ some handler
      → handler.handle ctx regs ≡ (error e, ctx')
      → dispatch d bufs ctx regs ≡ (error e, ctx', bufs)
  unfolding dispatch
  dispatch_failed handler e ctx' found failed = ground (arith, found, failed)

  pub dispatch_panicked :
      (handler : SyscallHandler M) (ctx' : Context M)
      → get d regs.syscall_nr ≡ some handler
      → handler.handle ctx regs ≡ (panic, ctx')
      → dispatch d bufs ctx regs ≡ (panic, ctx', bufs)
  unfolding dispatch
  dispatch_panicked handler ctx' found panicked = ground (arith, found, panicked)

  pub dispatch_missing :
      get d regs.syscall_nr ≡ none
      → dispatch d bufs ctx regs ≡ (
        ok (SyscallOutcome.return (err enosys)),
        ctx,
        trace_outcome d.trace bufs
            (codes "<unimplemented>")
            regs
            (SyscallOutcome.return (err enosys)),
      )
  unfolding dispatch
  dispatch_missing found = ground (arith, found)

  -- A number without a handler gets -ENOSYS, and the context is left as it is.
  pub dispatch_unknown :
      get d regs.syscall_nr ≡ none
      → ((dispatch d bufs ctx regs).0 ≡ ok (SyscallOutcome.return (err enosys)))
        × ((dispatch d bufs ctx regs).1 ≡ ctx)
  unfolding dispatch
  dispatch_unknown e = ground (arith, e)

  -- A dispatch that fails or panics leaves every sink as it is: the syscall is not in the trace.
  pub dispatch_untraced :
      ((outcome : SyscallOutcome) → (dispatch d bufs ctx regs).0 ≢ ok outcome)
      → (dispatch d bufs ctx regs).2 ≡ bufs
  unfolding dispatch
  dispatch_untraced h = untraced (handle_with (get d regs.syscall_nr) ctx regs).0 refl
    where
      untraced :
          (r : Outcome DispatchError SyscallOutcome)
          → (handle_with (get d regs.syscall_nr) ctx regs).0 ≡ r
          → (dispatch d bufs ctx regs).2 ≡ bufs
      untraced (ok outcome) e = absurd (h outcome (ground (arith, e)))
      untraced (error x) e = ground (arith, e)
      untraced panic e = ground (arith, e)
