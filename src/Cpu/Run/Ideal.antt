-- ===== src/Cpu/Run/Ideal.antt =====
-- A description of a whole run under stage 1 from the registers up: a row of a table for each
-- syscall, and a verdict on the state in which the engine returns.
use win_vpwn.Base.{
  ℕ, zero, suc, ℤ, pos, ◌-◌, ◌%◌, ◌^◌, List, [], ◌∷◌, ◌++◌, ◌||◌, Option, none, some, Text, codes,
  negsuc, ◌≡◌, Done, Outcome, ok, error, panic, signed64, length, ltb, ◌==◌, isize_max,
  if◌then◌else◌,
}
use win_vpwn.Trace.{TraceSink, Buffers}
use win_vpwn.Vkernel.Process.{ExitReason, exit, falloff, stopped}
use win_vpwn.Cpu.Engine.{Unicorn, at_syscall, returned}
use win_vpwn.Cpu.Vcpu.{Vcpu, VcpuError, SharedState}
use win_vpwn.Cpu.Hook.{HookState}
use win_vpwn.Cpu.Run.AccessFaults.{NamesFault}

module _ (u : Unicorn) where
  -- The value of a register, 0 if it cannot be read.
  abbrev pub word : u.State → u.Reg → ℕ
  word s r = elim (u.reg_read s r) [ ok v ↦ v | error e ↦ 0 | panic ↦ 0 ]

  -- What the engine's return means, by the owner's state and the engine then.
  pub data Verdict (shared : SharedState) (s : u.State)
      : Outcome u.UcError Done → Outcome VcpuError ExitReason → Type 0 where
    exits :
        {reason : ExitReason}
        → shared.exit_reason ≡ some reason
        → Verdict shared s (ok tt) (ok reason)
    fails :
        {msg : Text}
        → shared.exit_reason ≡ none
        → shared.engine_error ≡ some msg
        → Verdict shared s (ok tt) (error (VcpuError.exec msg))
    stops :
        shared.exit_reason ≡ none
        → shared.engine_error ≡ none
        → Verdict shared s (ok tt) (ok stopped)
    falls :
        (e : u.UcError)
        → NamesFault (u.error_text e)
        → Verdict shared s (error e) (ok (falloff (word s u.rip)))
    breaks :
        (e : u.UcError)
        → (¬ NamesFault (u.error_text e))
        → Verdict shared s (error e) (error (VcpuError.exec (u.error_text e)))
    dies : Verdict shared s panic panic

  module _ (trace : Option TraceSink) where
    module _ (h : HookState u) where
      -- The trace with a record, if there is a sink, of the syscall that the engine is at.
      abbrev pub noted : Text → ℤ → Buffers
      noted name ret = elim trace [
        | none ↦ h.bufs
        | some sink ↦ λ other.
            if other == sink
            then h.bufs sink
              ++ record {
                seq = length (h.bufs sink) % 2 ^ 64;
                nr = signed64 (word h.engine u.rax);
                name = name;
                args = (
                  word h.engine u.rdi,
                  word h.engine u.rsi,
                  word h.engine u.rdx,
                  word h.engine u.r10,
                  word h.engine u.r8,
                  word h.engine u.r9,
                );
                ret = ret;
                rip = word h.engine u.rip;
              }
                ∷ []
            else h.bufs other
      ]

      abbrev pub answered : Text → ℤ → ℕ → HookState u
      answered name ret rax = record h {
        engine = (u.reg_write h.engine u.rax rax).1;
        bufs = noted name ret;
      }

      abbrev pub exit_row : Text → HookState u
      exit_row name = record {
        engine = (u.emu_stop h.engine).1;
        shared = record h.shared { exit_reason = some (exit (word h.engine u.rdi % 256)) };
        bufs = noted name (pos 0);
      }

      -- By what the engine reads at RSI, of the length in RDX.
      abbrev pub write_row : Outcome u.UcError (List ℕ) → Option (HookState u)
      write_row (ok bytes) =
          let count = word h.engine u.rdx in
          some (record (answered (codes "write") (pos count) count) {
            shared = record h.shared { output = h.shared.output ++ bytes };
          })
      write_row (error e) = some (record h {
        engine = (u.emu_stop h.engine).1;
        shared = record h.shared {
          engine_error = some (codes "E202: engine error: guest memory read failed");
        };
      })
      write_row panic = none

      -- The state after the syscall in RAX: 1 is `write`, 60 and 231 are the exits. `none` is a panic,
      -- of a buffer that cannot be allocated or of the engine.
      unfoldable pub row : Option (HookState u)
      row =
          if word h.engine u.rax == 1
          then (if word h.engine u.rdi == 1 || word h.engine u.rdi == 2
              then (if ltb isize_max (word h.engine u.rdx)
                  then none
                  else write_row (u.mem_read h.engine (word h.engine u.rsi) (word h.engine u.rdx)))
              else some (answered (codes "write") (negsuc 8) (2 ^ 64 - 9)))
          else if word h.engine u.rax == 60
          then some (exit_row (codes "exit"))
          else if word h.engine u.rax == 231
          then some (exit_row (codes "exit_group"))
          else some (answered (codes "<unimplemented>") (negsuc 37) (2 ^ 64 - 38))

    abbrev pub at_hook : HookState u → HookState u
    at_hook h = record h { engine = (u.resume h.engine).1 }

    -- `n` rows of the table lead from one state to the other.
    pub data Rows (h : HookState u) : ℕ → HookState u → Type 0 where
      no_row : Rows h zero h
      one_more :
          {n : ℕ} {g g' : HookState u}
          → Rows h n g
          → (u.resume g.engine).0 ≡ at_syscall
          → row (at_hook g) ≡ some g'
          → Rows h (suc n) g'

    module _ (v : Vcpu u) (s : u.State) (bufs : Buffers) (timeout_ms : ℕ) where
      -- From RIP on, without a bound on the addresses or on the number of instructions.
      abbrev pub set_off : HookState u
      set_off = record {
        engine = u.emu_begin s (word s u.rip) 0xffffffffffffffff timeout_ms 0;
        shared = v.shared;
        bufs = bufs;
      }

      -- A run with `n` syscalls: its result, the CPU and the trace after it.
      pub data Runs (n : ℕ) : Outcome VcpuError ExitReason → Vcpu u → Buffers → Type 0 where
        ends :
            {h : HookState u} {r : Outcome u.UcError Done} {result : Outcome VcpuError ExitReason}
            → Rows set_off n h
            → (u.resume h.engine).0 ≡ returned r
            → Verdict h.shared (u.resume h.engine).1 r result
            → Runs n result (record v { uc = some (u.resume h.engine).1; shared = h.shared }) h.bufs
        panics :
            {h : HookState u}
            → Rows set_off n h
            → (u.resume h.engine).0 ≡ at_syscall
            → row (at_hook h) ≡ none
            → Runs n panic v bufs
