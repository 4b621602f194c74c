-- ===== src/Tests/Units/State.antt =====
-- The unit tests of memory/mmap.rs, vkernel/io.rs, vkernel/mem.rs, trace/recorder.rs and
-- cpu/context.rs.
use win_vpwn.Base.{
  pos, [], ◌∷◌, Bool, true, false, not, ◌&&◌, codes, ◌≡◌, refl, ◌==◌, eq_text, eq_ℤ, length,
}
use win_vpwn.Memory
use win_vpwn.Memory.{MemoryMap, Region, empty_map, contains}
use win_vpwn.Trace.{Buffers, TraceSink, SyscallOutcome, push_record, drain, is_empty, len}
use win_vpwn.Vkernel.Process.{ExitReason}
use win_vpwn.Vkernel.Capture
use win_vpwn.Vkernel.Capture.{empty_capture, stdout, stderr, combined}
use win_vpwn.Vkernel.Guest
use win_vpwn.Vkernel.Guest.{empty_guest, zeroed}
use win_vpwn.Cpu.Registers.{new_cpu_context, syscall_regs}
use win_vpwn.Tests.Units.{unwrap, unwrap_value, unwrap_err, is_err, is_ok}

abbrev insert_and_query : Bool
insert_and_query = unwrap (Memory.insert empty_map 0x400000 0x1000 5) λ map.
    unwrap (Memory.insert map 0x401000 0x2000 6) λ map. elim map.regions [
      | [] ↦ false
      | first ∷ rest ↦
          (length (first ∷ rest) == 2) && contains first 0x400800 && not (contains first 0x401000)
    ]

insert_and_query_passes : insert_and_query ≡ true
unfolding Memory.insert
insert_and_query_passes = refl

abbrev rejects_overlap : Bool
rejects_overlap = unwrap (Memory.insert empty_map 0x1000 0x3000 0) λ map.
    is_err (Memory.insert map 0x2000 0x100 0).0
    && is_err (Memory.insert map 0x3f00 0x200 0).0
    && is_ok (Memory.insert map 0x4000 0x100 0).0

rejects_overlap_passes : rejects_overlap ≡ true
unfolding Memory.insert
rejects_overlap_passes = refl

abbrev zero_size_is_noop : Bool
zero_size_is_noop = unwrap (Memory.insert empty_map 0x1000 0 0) λ map. length map.regions == 0

zero_size_is_noop_passes : zero_size_is_noop ≡ true
unfolding Memory.insert
zero_size_is_noop_passes = refl

abbrev adjacent_does_not_overlap : Bool
adjacent_does_not_overlap =
    unwrap (Memory.insert empty_map 0x1000 0x1000 0)
      λ map. is_ok (Memory.insert map 0x2000 0x1000 0).0

adjacent_does_not_overlap_passes : adjacent_does_not_overlap ≡ true
unfolding Memory.insert
adjacent_does_not_overlap_passes = refl

abbrev capture_stdout : Bool
capture_stdout =
    let cap = Capture.write (Capture.write empty_capture (pos 1) (codes "a")) (pos 1) (codes "b") in
    eq_text (stdout cap) (codes "ab") && eq_text (stderr cap) []

capture_stdout_passes : capture_stdout ≡ true
unfolding Capture.write stdout stderr
capture_stdout_passes = refl

abbrev capture_stderr_separately : Bool
capture_stderr_separately =
    let cap = Capture.write empty_capture (pos 2) (codes "err") in
    eq_text (stdout cap) [] && eq_text (stderr cap) (codes "err")

capture_stderr_separately_passes : capture_stderr_separately ≡ true
unfolding Capture.write stdout stderr
capture_stderr_separately_passes = refl

abbrev combined_in_fd_order : Bool
combined_in_fd_order =
    let cap = Capture.write (Capture.write empty_capture (pos 2) (codes "e")) (pos 1) (codes "o") in
    eq_text (combined cap) (codes "oe")

combined_in_fd_order_passes : combined_in_fd_order ≡ true
unfolding Capture.write combined
combined_in_fd_order_passes = refl

abbrev map_and_read : Bool
map_and_read = unwrap (Guest.map_anon empty_guest 0x400000 32 3) λ mem.
    unwrap (Guest.write mem 0x400000 (codes "hello"))
      λ mem. unwrap_value (Guest.read mem 0x400000 5) λ bytes. eq_text bytes (codes "hello")

map_and_read_passes : map_and_read ≡ true
unfolding Guest.map_anon Guest.write Guest.read zeroed Guest.region
map_and_read_passes = refl

abbrev read_returns_io_error_outside_map : Bool
read_returns_io_error_outside_map =
    unwrap (Guest.map_anon empty_guest 0x1000 16 3)
      λ mem. unwrap_err (Guest.read mem 0x2000 1) λ err. err.addr == 0x2000

read_returns_io_error_outside_map_passes : read_returns_io_error_outside_map ≡ true
unfolding Guest.map_anon Guest.read zeroed Guest.region
read_returns_io_error_outside_map_passes = refl

abbrev double_map_rejected : Bool
double_map_rejected =
    unwrap (Guest.map_anon empty_guest 0x1000 16 3) λ mem. is_err (Guest.map_anon mem 0x1000 16 3).0

double_map_rejected_passes : double_map_rejected ≡ true
unfolding Guest.map_anon zeroed
double_map_rejected_passes = refl

abbrev write_past_end_is_io_error : Bool
write_past_end_is_io_error =
    unwrap (Guest.map_anon empty_guest 0x1000 8 3)
      λ mem. is_err (Guest.write mem 0x1004 (codes "toolong")).0

write_past_end_is_io_error_passes : write_past_end_is_io_error ≡ true
unfolding Guest.map_anon Guest.write zeroed Guest.region
write_past_end_is_io_error_passes = refl

-- A fresh sink is the handle 0, and no buffer has a record.
abbrev no_buffers : Buffers
no_buffers sink = []

abbrev drain_roundtrip : Bool
drain_roundtrip =
    let bufs =
      push_record no_buffers 0 (codes "write") (pos 1) (1, 0, 5, 0, 0, 0) 0x401000
        (SyscallOutcome.return (pos 5)) in
    let (recs, left) = drain bufs 0 in
    elim recs [
      | r ∷ [] ↦
          eq_text r.name (codes "write")
          && eq_ℤ r.nr (pos 1)
          && eq_ℤ r.ret (pos 5)
          && is_empty left 0
      | _ ↦ false
    ]

drain_roundtrip_passes : drain_roundtrip ≡ true
unfolding push_record drain is_empty len
drain_roundtrip_passes = refl

-- A clone is the same handle.
abbrev clones_share_buffer : Bool
clones_share_buffer =
    let a : TraceSink = 0 in
    let b = a in
    let bufs =
      push_record no_buffers a (codes "exit") (pos 60) (0, 0, 0, 0, 0, 0) 0
        (SyscallOutcome.exit (ExitReason.exit 0)) in
    length (drain bufs b).0 == 1

clones_share_buffer_passes : clones_share_buffer ≡ true
unfolding push_record drain
clones_share_buffer_passes = refl

-- The values of a `[u64; 6]` in a list.
abbrev syscall_regs_order : Bool
syscall_regs_order =
    let ctx = record new_cpu_context { rdi = 1; rsi = 2; rdx = 3; r10 = 4; r8 = 5; r9 = 6 } in
    let (a, b, c, d, e, f) = syscall_regs ctx in
    eq_text (a ∷ b ∷ c ∷ d ∷ e ∷ f ∷ []) (1 ∷ 2 ∷ 3 ∷ 4 ∷ 5 ∷ 6 ∷ [])

syscall_regs_order_passes : syscall_regs_order ≡ true
syscall_regs_order_passes = refl

abbrev default_is_zeroed : Bool
default_is_zeroed = (new_cpu_context.rax == 0) && (new_cpu_context.rip == 0)

default_is_zeroed_passes : default_is_zeroed ≡ true
default_is_zeroed_passes = refl
