-- ===== src/Tests/Units/Syscall.antt =====
-- The unit tests of syscall/dispatch.rs and syscall/dispatch_impl.rs, and those of elf/loader.rs
-- that do not read the fixture.
use win_vpwn.Base.{
  ℕ, ℤ, pos, List, [], ◌∷◌, ◌++◌, Bool, true, false, ◌&&◌, codes, ◌≡◌, refl, ◌==◌, eq_text, eq_ℤ,
}
use win_vpwn.Trace.{Buffers, SyscallOutcome}
use win_vpwn.Vkernel.{new_context}
use win_vpwn.Vkernel.Process.{ExitReason, ProcessState, running, exited}
use win_vpwn.Vkernel.Capture.{stdout, combined}
use win_vpwn.Vkernel.Capture
use win_vpwn.Vkernel.Guest
use win_vpwn.Vkernel.Guest.{InMemGuest, zeroed}
use win_vpwn.Vkernel.Guest.Backend.{in_mem_guest}
use win_vpwn.Syscall.Errno.{enosys, ebadf, err}
use win_vpwn.Syscall.Dispatch.{from_regs, dispatch, get, register, implemented, new_dispatch}
use win_vpwn.Syscall.Handlers.{exit_handler, write_handler, register_all, handle_exit, handle_write}
use win_vpwn.Elf.{load_elf, elf_error_code, perms_string}
use win_vpwn.Elf.Format.{Goblin}
use Prim.Native.Nat.{bit_or}
use win_vpwn.Tests.Units.{unwrap, unwrap_value, unwrap_err}

abbrev no_buffers : Buffers
no_buffers sink = []

abbrev eq_list_ℤ : List ℤ → List ℤ → Bool
eq_list_ℤ [] [] = true
eq_list_ℤ (x ∷ xs) (y ∷ ys) = eq_ℤ x y && eq_list_ℤ xs ys
eq_list_ℤ _ _ = false

abbrev returns : ℤ → SyscallOutcome → Bool
returns expected (SyscallOutcome.return ret) = eq_ℤ ret expected
returns expected (SyscallOutcome.exit reason) = false

abbrev exits : ℕ → SyscallOutcome → Bool
exits expected (SyscallOutcome.exit (ExitReason.exit code)) = code == expected
exits expected _ = false

abbrev is_exited : ℕ → ProcessState → Bool
is_exited expected running = false
is_exited expected (exited code) = code == expected

abbrev unknown_returns_enosys : Bool
unknown_returns_enosys =
    let regs = from_regs (pos 999) (0, 0, 0, 0, 0, 0) 0x400000 in
    unwrap_value (dispatch (new_dispatch InMemGuest) no_buffers new_context regs).0
      (returns (err enosys))

unknown_returns_enosys_passes : unknown_returns_enosys ≡ true
unfolding dispatch get
unknown_returns_enosys_passes = refl

abbrev implemented_lists_sorted : Bool
implemented_lists_sorted =
    let table = register (new_dispatch InMemGuest) (write_handler in_mem_guest) in
    let table = register table exit_handler in eq_list_ℤ (implemented table) (pos 1 ∷ pos 60 ∷ [])

implemented_lists_sorted_passes : implemented_lists_sorted ≡ true
unfolding register implemented
implemented_lists_sorted_passes = refl

abbrev write_captures_output : Bool
write_captures_output =
    let addr : ℕ = 0x400000 in
    unwrap (Guest.map_anon new_context.mem addr 16 3) λ mem.
      unwrap (Guest.write mem addr (codes "hello")) λ mem.
        let table = register (new_dispatch InMemGuest) (write_handler in_mem_guest) in
        let regs = from_regs (pos 1) (1, addr, 5, 0, 0, 0) 0x400100 in
        let (r, ctx, bufs) = dispatch table no_buffers (record new_context { mem = mem }) regs in
        unwrap_value r (returns (pos 5)) && eq_text (stdout ctx.io) (codes "hello")

write_captures_output_passes : write_captures_output ≡ true
unfolding Guest.map_anon Guest.write Guest.read Guest.region zeroed register dispatch get
    handle_write Capture.write stdout
write_captures_output_passes = refl

abbrev write_rejects_bad_fd : Bool
write_rejects_bad_fd =
    let table = register (new_dispatch InMemGuest) (write_handler in_mem_guest) in
    let regs = from_regs (pos 1) (42, 0, 0, 0, 0, 0) 0 in
    unwrap_value (dispatch table no_buffers new_context regs).0 (returns (err ebadf))

write_rejects_bad_fd_passes : write_rejects_bad_fd ≡ true
unfolding register dispatch get handle_write
write_rejects_bad_fd_passes = refl

abbrev exit_sets_state : Bool
exit_sets_state =
    let table = register (new_dispatch InMemGuest) exit_handler in
    let regs = from_regs (pos 60) (7, 0, 0, 0, 0, 0) 0 in
    let (r, ctx, bufs) = dispatch table no_buffers new_context regs in
    unwrap_value r (exits 7) && is_exited 7 ctx.process

exit_sets_state_passes : exit_sets_state ≡ true
unfolding register dispatch get handle_exit
exit_sets_state_passes = refl

abbrev register_all_installs_three : Bool
register_all_installs_three =
    eq_list_ℤ (implemented (register_all in_mem_guest (new_dispatch InMemGuest)))
      (pos 1 ∷ pos 60 ∷ pos 231 ∷ [])

register_all_installs_three_passes : register_all_installs_three ≡ true
unfolding register register_all implemented
register_all_installs_three_passes = refl

-- Whatever the parser: the magic number is looked at first.
abbrev rejects_non_elf : Goblin → Bool
rejects_non_elf goblin =
    unwrap_err (load_elf goblin (codes "MZ" ++ 0x90 ∷ 0 ∷ codes "junk"))
      λ e. eq_text (elf_error_code e) (codes "E001")

rejects_non_elf_passes : (goblin : Goblin) → rejects_non_elf goblin ≡ true
unfolding load_elf elf_error_code
rejects_non_elf_passes goblin = refl

abbrev perms_mapping : Goblin → Bool
perms_mapping goblin =
    eq_text (perms_string goblin goblin.pf_r) (codes "R--")
    && eq_text (perms_string goblin (bit_or goblin.pf_r goblin.pf_w)) (codes "RW-")
    && eq_text (perms_string goblin (bit_or goblin.pf_r goblin.pf_x)) (codes "R-X")

perms_mapping_passes : (goblin : Goblin) → perms_mapping goblin ≡ true
unfolding perms_string
perms_mapping_passes goblin = rw (goblin.pf_r_value, goblin.pf_w_value, goblin.pf_x_value) refl
