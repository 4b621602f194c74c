-- ===== src/Cpu/Run/Rows.antt =====
-- The hook under stage 1 against the rows of the table, which read the registers one by one.
use win_vpwn.Base.{
  ℕ, ℤ, pos, ◌%◌, ◌^◌, ◌<◌, List, false, Bool-cases, Option-cases, ◌||◌, Option, none, some, Text,
  codes, negsuc, ◌≡◌, ◌↔◌, inl, inr, refl, ap, sym, ◌∙◌, arith, Outcome, ok, error, panic, signed64,
  ltb, ◌==◌, isize_max, if◌then◌else◌, eq_ℤ,
}
use win_vpwn.Trace.{TraceSink, SyscallOutcome, push_record, traced_ret}
use win_vpwn.Vkernel.Process.{exit}
use win_vpwn.Vkernel.Guest.{zeroed}
use win_vpwn.Syscall.Dispatch.{dispatch_error_text}
use win_vpwn.Syscall.Handlers.Stage1.{stage1}
use win_vpwn.Cpu.Engine.{Unicorn, unicorn_guest, guest_read}
use win_vpwn.Cpu.Hook.{HookState, syscall_hook, read_regs, or_zero}
use win_vpwn.Cpu.Hook.Effects.{traced, regs}
use win_vpwn.Cpu.Hook.Flat.{flat_hook, flat_write, hook-flat}
use win_vpwn.Cpu.Run.Ideal.{word, noted, row, write_row}

eq_signed64 : (w n : ℕ) → n < 2 ^ 63 → eq_ℤ (pos n) (signed64 w) ≡ (w == n)
eq_signed64 w n small = ground arith

eq_signed64_left : (w n : ℕ) → n < 2 ^ 63 → eq_ℤ (signed64 w) (pos n) ≡ (w == n)
eq_signed64_left w n small = ground arith

module _ (u : Unicorn) where
  -- The hook's result for a row.
  abbrev from_row : Option (HookState u) → Outcome ⊥ (HookState u)
  from_row none = panic
  from_row (some h) = ok h

  word_lem : (s : u.State) (r : u.Reg) → word u s r ≡ or_zero (u.reg_read s r)
  word_lem s r = refl

  noted_lem :
      (trace : Option TraceSink) (h : HookState u) (name : Text) (outcome : SyscallOutcome)
      → noted u trace h name (traced_ret outcome) ≡ traced u trace h name outcome
  unfolding push_record read_regs
  noted_lem none h name outcome = refl
  noted_lem (some sink) h name outcome = refl

  module _ (trace : Option TraceSink) (h : HookState u) where
    filled :
        (bytes : Outcome u.UcError (List ℕ))
        → u.mem_read h.engine (word u h.engine u.rsi) (word u h.engine u.rdx) ≡ bytes
        → ltb isize_max (word u h.engine u.rdx) ≡ false
        → flat_write u trace h (guest_read u h.engine (regs u trace h).arg1 (regs u trace h).arg2)
          ≡ from_row
              (if ltb isize_max (word u h.engine u.rdx) then none else write_row u trace h bytes)
    unfolding read_regs guest_read zeroed dispatch_error_text
    filled (ok bytes) e fits =
        let count = word u h.engine u.rdx in
        let record_of = noted_lem trace h (codes "write") (SyscallOutcome.return (pos count)) in
        rw (fits, e, record_of) refl
    filled (error x) e fits = rw (fits, e) refl
    filled panic e fits = rw (fits, e) refl

    buffer_lem :
        (bytes : Outcome u.UcError (List ℕ))
        → u.mem_read h.engine (word u h.engine u.rsi) (word u h.engine u.rdx) ≡ bytes
        → flat_write u trace h (guest_read u h.engine (regs u trace h).arg1 (regs u trace h).arg2)
          ≡ from_row
              (if ltb isize_max (word u h.engine u.rdx) then none else write_row u trace h bytes)
    unfolding read_regs guest_read zeroed dispatch_error_text
    buffer_lem bytes e = elim (Bool-cases (ltb isize_max (word u h.engine u.rdx))) [
      | inl huge ↦ rw huge refl
      | inr fits ↦ filled bytes e fits
    ]

    flat_hook_lem : flat_hook u trace h ≡ from_row (row u trace h)
    unfolding flat_hook read_regs row
    flat_hook_lem =
        let nr = word u h.engine u.rax in
        let write = eq_signed64 nr 1 (omega arith) in
        let exit_one = eq_signed64 nr 60 (omega arith) in
        let exit_all = eq_signed64 nr 231 (omega arith) in
        let out = eq_signed64_left (word u h.engine u.rdi) 1 (omega arith) in
        let err = eq_signed64_left (word u h.engine u.rdi) 2 (omega arith) in
        let fd = word u h.engine u.rdi in
        let noted_exit = λ (name : Text).
          noted_lem trace h name (SyscallOutcome.exit (exit (word u h.engine u.rdi % 256))) in
        let noted_as =
          λ (name : Text) (ret : ℤ). noted_lem trace h name (SyscallOutcome.return ret) in
        rw (write, exit_one, exit_all, out, err)
          (elim (Bool-cases (nr == 1)) [
            | inl is_write ↦ elim (Bool-cases (fd == 1 || fd == 2)) [
              | inl open_fd ↦ rw (is_write, open_fd) (buffer_lem _ refl)
              | inr closed ↦ rw (is_write, closed, noted_as (codes "write") (negsuc 8)) refl
            ]
            | inr other ↦ elim (Bool-cases (nr == 60)) [
              | inl is_exit ↦ rw (other, is_exit, noted_exit (codes "exit")) refl
              | inr no_exit ↦ elim (Bool-cases (nr == 231)) [
                | inl is_group ↦ rw (other, no_exit, is_group, noted_exit (codes "exit_group")) refl
                | inr none_of_them ↦
                    rw
                      (other, no_exit, none_of_them, noted_as (codes "<unimplemented>") (negsuc 37))
                      refl
              ]
            ]
          ])

    pub hook-row : syscall_hook u (stage1 (unicorn_guest u) trace) h ≡ from_row (row u trace h)
    hook-row = hook-flat u trace h ∙ flat_hook_lem

    pub row-ok :
        (h' : HookState u)
        → (syscall_hook u (stage1 (unicorn_guest u) trace) h ≡ ok h') ↔ (row u trace h ≡ some h')
    row-ok h' = (
      λ hooked. elim (Option-cases (row u trace h)) [
        | inl none_there ↦ cc (sym hook-row ∙ hooked, ap from_row none_there)
        | inr (g, there) ↦ there ∙ cc (sym hook-row ∙ hooked, ap from_row there)
      ],
      λ there. hook-row ∙ ap from_row there,
    )

    pub row-panic :
        (syscall_hook u (stage1 (unicorn_guest u) trace) h ≡ panic) ↔ (row u trace h ≡ none)
    row-panic = (
      λ hooked. elim (Option-cases (row u trace h)) [
        | inl none_there ↦ none_there
        | inr (g, there) ↦ cc (sym hook-row ∙ hooked, ap from_row there)
      ],
      λ there. hook-row ∙ ap from_row there,
    )
