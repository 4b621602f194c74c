-- ===== src/Tests/Units/Fixture.antt =====
-- The unit tests of elf/loader.rs that read the fixture `hello_static`, and those of
-- cpu/unicorn_engine.rs. The fixture, the parser and the engine are arguments.
use Prim.Native.Nat.{bit_and}
use win_vpwn.Base.{
  ℕ, ◌+◌, ◌-◌, ◌/◌, ◌%◌, ◌≡◌, refl, List, [], ◌∷◌, ◌++◌, Bool, true, false, not, ◌&&◌, ◌||◌, none,
  some, Outcome, ok, error, codes, Text, any, take, drop, length, get_elem?, suc, leb, ltb, ◌==◌,
  ==_iff, eq_text, arith,
}
use win_vpwn.Trace.{Buffers}
use win_vpwn.Vkernel.Process.{ExitReason, exit, falloff}
use win_vpwn.Syscall.Dispatch.{new_dispatch}
use win_vpwn.Syscall.Handlers.{register_all}
use win_vpwn.Elf.{
  Segment, LoadedElf, ElfError, bad_phdr, truncated, load_elf, load_parsed, elf_error_code,
  file_bytes, magic,
}
use win_vpwn.Elf.Format.{Goblin, ElfFile}
use win_vpwn.Elf.Contents.{load_elf-file_bytes}
use win_vpwn.Cpu.Engine.{Unicorn, unicorn_guest}
use win_vpwn.Cpu.Vcpu.{
  Vcpu, VcpuError, new_vcpu, map_elf, map_stack, map_memory, write_guest, setup_initial_state,
  set_reg, reg, output, stack_base, stack_size,
}
use win_vpwn.Cpu.Run.{run, Ran}
use win_vpwn.Tests.Units.{unwrap, unwrap_value, unwrap_err}

abbrev all : (Segment → Bool) → List Segment → Bool
all p [] = true
all p (seg ∷ segs) = p seg && all p segs

abbrev has_some : List Segment → Bool
has_some [] = false
has_some (seg ∷ segs) = true

abbrev is_bad_or_truncated : ElfError → Bool
is_bad_or_truncated (bad_phdr reason) = true
is_bad_or_truncated (truncated reason) = true
is_bad_or_truncated _ = false

module _ (goblin : Goblin) (hello : List ℕ) where
  abbrev loads_static_exec : Bool
  loads_static_exec = unwrap_value (load_elf goblin hello) λ elf.
      leb 0x400000 elf.entry
      && has_some elf.segments
      && any (λ s. not (bit_and s.flags goblin.pf_x == 0)) elf.segments
      && any (λ s. not (bit_and s.flags goblin.pf_r == 0)) elf.segments

  abbrev rejects_truncated_image : Bool
  rejects_truncated_image = unwrap_err (load_elf goblin (take 40 hello)) is_bad_or_truncated

  -- The fixture with `ET_DYN` at offset 16, low byte first.
  abbrev as_pie : List ℕ
  as_pie = take 16 hello ++ (goblin.et_dyn % 256 ∷ goblin.et_dyn / 256 % 256 ∷ drop 18 hello)

  abbrev rejects_pie_in_stage1 : Bool
  rejects_pie_in_stage1 =
      unwrap_err (load_elf goblin as_pie) λ e. eq_text (elf_error_code e) (codes "E004")

  abbrev sizes_match : Segment → Bool
  sizes_match seg =
      unwrap_value (file_bytes {E = ElfError} seg) (λ bytes. length bytes == seg.filesz)
      && leb seg.filesz seg.memsz

  abbrev file_bytes_match_memsz_bss : Bool
  file_bytes_match_memsz_bss =
      unwrap_value (load_elf goblin hello) λ elf. all sizes_match elf.segments

  -- A fixture that goblin does not parse when it is cut off passes, if it begins with the magic bytes.
  rejects_truncated_image_passes :
      (why : Text)
      → (ltb (length (take 40 hello)) 4 || not (eq_text (take 4 (take 40 hello)) magic)) ≡ false
      → goblin.parse (take 40 hello) ≡ error why
      → rejects_truncated_image ≡ true
  unfolding load_elf
  rejects_truncated_image_passes why good cut = rw (good, cut) refl

  -- A fixture that goblin parses as `ET_DYN` once the type is changed passes.
  rejects_pie_in_stage1_passes :
      (elf : ElfFile)
      → (ltb (length as_pie) 4 || not (eq_text (take 4 as_pie) magic)) ≡ false
      → goblin.parse as_pie ≡ ok elf
      → elf.is_64 ≡ true
      → (elf.e_machine == goblin.em_x86_64) ≡ true
      → (elf.e_type == goblin.et_exec) ≡ false
      → rejects_pie_in_stage1 ≡ true
  unfolding load_elf load_parsed elf_error_code
  rejects_pie_in_stage1_passes elf good parsed is_64 machine type =
      rw (good, parsed, is_64, machine, type) refl

  all-sizes_match :
      (segs : List Segment)
      → ((i : ℕ) (seg : Segment) → get_elem? segs i ≡ some seg → sizes_match seg ≡ true)
      → all sizes_match segs ≡ true
  all-sizes_match [] each = refl
  all-sizes_match (seg ∷ segs) each =
      rw (each 0 seg refl, all-sizes_match segs (λ i s at. each (suc i) s at)) refl

  -- Every fixture that loads passes.
  file_bytes_match_memsz_bss_passes :
      (elf : LoadedElf) → load_elf goblin hello ≡ ok elf → file_bytes_match_memsz_bss ≡ true
  file_bytes_match_memsz_bss_passes elf loads = rw loads (all-sizes_match elf.segments each)
    where
      each : (i : ℕ) (seg : Segment) → get_elem? elf.segments i ≡ some seg → sizes_match seg ≡ true
      each i seg at =
          let (_, fits, (bytes, taken, size)) =
            load_elf-file_bytes goblin hello elf i seg loads at in
          rw (taken, (==_iff _ _).1 size) (ground (arith, fits))

abbrev ran : (u : Unicorn) → Ran u → (ExitReason → Vcpu u → Bool) → Bool
ran u none test = false
ran u (some (reason, v, bufs)) test = unwrap_value reason (λ r. test r v)

abbrev is_exit_0 : ExitReason → Bool
is_exit_0 (exit code) = code == 0
is_exit_0 _ = false

abbrev is_fall : ExitReason → Bool
is_fall (falloff rip) = true
is_fall _ = false

abbrev holds : Outcome VcpuError ℕ → ℕ → Bool
holds r expected = unwrap_value r (λ value. value == expected)

module _ (u : Unicorn) (bufs : Buffers) (fuel : ℕ) where
  abbrev vcpu : Outcome VcpuError (Vcpu u)
  vcpu = new_vcpu u (register_all (unicorn_guest u) (new_dispatch u.State))

  abbrev pub maps_and_runs_hello : Goblin → List ℕ → Bool
  maps_and_runs_hello goblin hello = unwrap_value (load_elf goblin hello) λ image.
      unwrap_value vcpu λ v. unwrap (map_elf u image v) λ v.
        unwrap (map_stack u stack_base stack_size v) λ v.
          unwrap (setup_initial_state u image.entry (stack_base + stack_size) v) λ v.
            ran u (run u fuel 0 v bufs) λ reason v.
              is_exit_0 reason && eq_text (output u v) (codes "hello, winVpwn" ++ 10 ∷ [])

  abbrev pub stack_layout_is_zeroed : Bool
  stack_layout_is_zeroed = unwrap_value vcpu λ v. unwrap (map_stack u stack_base stack_size v) λ v.
      unwrap (setup_initial_state u 0x401000 (stack_base + stack_size) v) λ v.
        holds (reg u v u.rip) 0x401000 && holds (reg u v u.rsp) (stack_base + stack_size - 0x20)

  abbrev pub run_falls_off_image_returns_falloff : Bool
  run_falls_off_image_returns_falloff = unwrap_value vcpu λ v.
      unwrap (map_memory u 0x400000 0x1000 (u.prot_or u.prot_read u.prot_exec) v) λ v.
        unwrap (write_guest u 0x400000 (0xc3 ∷ []) v) λ v.
          unwrap (map_stack u stack_base stack_size v) λ v. unwrap (set_reg u u.rip 0x400000 v) λ v.
            unwrap (set_reg u u.rsp (stack_base + stack_size - 8) v)
              λ v. ran u (run u fuel 0 v bufs) λ reason v. is_fall reason
