-- ===== src/Elf.antt =====
-- crates/winvpwn-core/src/elf/loader.rs: from the bytes of an image to its loadable segments.
pub mod Format
pub mod Segments
pub mod Contents
pub mod Apart
pub mod Accepts
pub mod Errors
pub mod Magic
pub mod Overlaps
use Prim.Native.Nat.{bit_and}
use win_vpwn.Base.{
  ℕ, ◌-◌, List, [], ◌∷◌, ◌++◌, Bool, true, false, not, ◌||◌, ◌&&◌, Option, none, some, Text, codes,
  to_hex, to_decimal, Outcome, ok, error, panic, ◌>>=◌, ◌>>◌, map_err, ok_or_else, Done, eq_text,
  length, take, drop, filter, find, ltb, leb, ◌==◌, if◌then◌else◌, checked_add, sub_u64,
}
use win_vpwn.Memory
use win_vpwn.Memory.{Region, MemoryMap, MmapError, contains, empty_map}
use win_vpwn.Vkernel.Guest.{zeroed}
use Format.{Goblin, ElfFile, ProgramHeader}

pub record Segment : Type 0 where
  pub vaddr : ℕ
  pub memsz : ℕ
  pub filesz : ℕ
  pub bytes : List ℕ
  pub flags : ℕ
  pub align : ℕ

-- `&data[..n]`: a slice past the end panics.
unfoldable pub slice_to {ℓ} : {E : Type ℓ} → List ℕ → ℕ → Outcome E (List ℕ)
slice_to bytes n = if ltb (length bytes) n then panic else ok (take n bytes)

-- `Segment::file_bytes`
unfoldable pub file_bytes {ℓ} : {E : Type ℓ} → Segment → Outcome E (List ℕ)
unfolding slice_to
file_bytes seg = slice_to seg.bytes seg.filesz

pub record LoadedElf : Type 0 where
  pub entry : ℕ
  pub segments : List Segment
  pub is_pie : Bool

pub data ElfError : Type 0 where
  not_elf : ElfError
  unsupported_format : Text → ElfError
  unsupported_machine : ElfError
  unsupported_type : ℕ → ElfError
  bad_phdr : Text → ElfError
  truncated : Text → ElfError
  segment_overlap : ℕ → ℕ → ElfError

-- `ElfError::code`
unfoldable pub elf_error_code : ElfError → Text
elf_error_code not_elf = codes "E001"
elf_error_code (unsupported_format what) = codes "E002"
elf_error_code unsupported_machine = codes "E003"
elf_error_code (unsupported_type found) = codes "E004"
elf_error_code (bad_phdr reason) = codes "E005"
elf_error_code (truncated reason) = codes "E006"
elf_error_code (segment_overlap vaddr other) = codes "E007"

elf_error_reason : ElfError → Text
elf_error_reason not_elf = codes ": not an ELF file (bad magic)"
elf_error_reason (unsupported_format what) = codes ": unsupported image format: " ++ what
elf_error_reason unsupported_machine = codes ": unsupported machine (stage 1 supports x86_64)"
elf_error_reason (unsupported_type found) =
    codes ": unsupported ELF type "
    ++ (to_decimal found ++ codes " (stage 1 supports static ET_EXEC)")
elf_error_reason (bad_phdr reason) = codes ": malformed program header: " ++ reason
elf_error_reason (truncated reason) = codes ": truncated image: " ++ reason
elf_error_reason (segment_overlap vaddr other) =
    codes ": loadable segment at 0x"
    ++ (to_hex vaddr ++ (codes " overlaps segment at 0x" ++ to_hex other))

-- `Display for ElfError`
unfoldable pub elf_error_text : ElfError → Text
unfolding elf_error_code elf_error_reason
elf_error_text e = elf_error_code e ++ elf_error_reason e

abbrev pub magic : List ℕ
magic = 0x7f ∷ b'E' ∷ b'L' ∷ b'F' ∷ []

-- `data[..file.len()].copy_from_slice(file)`: the slice panics if the file part is longer.
unfoldable pub copy_to_front {ℓ} : {E : Type ℓ} → List ℕ → List ℕ → Outcome E (List ℕ)
copy_to_front bytes file =
    if ltb (length bytes) (length file) then panic else ok (file ++ drop (length file) bytes)

-- The base that an overlap is reported with: that of the first region that holds `vaddr`, or 0.
unfoldable pub overlapped_base : MemoryMap → ℕ → ℕ
overlapped_base m vaddr = elim (find (λ r. contains r vaddr || vaddr == r.base) m.regions) [
  | some r ↦ r.base
  | none ↦ 0
]

-- What `map_err` makes of the claim of a range: an overlap is reported with the base above.
abbrev pub or_overlap : ℕ → Outcome MmapError Done × MemoryMap → Outcome ElfError MemoryMap
or_overlap vaddr (ok done, m) = ok m
or_overlap vaddr (error e, m) = error (segment_overlap vaddr (overlapped_base m vaddr))
or_overlap vaddr (panic, m) = panic

-- The claim of a segment's range; it comes before the checks of its file part.
unfoldable pub claim : MemoryMap → ProgramHeader → Outcome ElfError MemoryMap
claim m phdr =
    ok_or_else (checked_add phdr.p_vaddr phdr.p_memsz)
      (bad_phdr (codes "PT_LOAD vaddr+memsz overflows"))
    >>= λ end.
        or_overlap phdr.p_vaddr
          (Memory.insert m phdr.p_vaddr (sub_u64 end phdr.p_vaddr) phdr.p_flags)

abbrev pub segment_of : ProgramHeader → List ℕ → Segment
segment_of phdr bytes = record {
  vaddr = phdr.p_vaddr;
  memsz = phdr.p_memsz;
  filesz = phdr.p_filesz;
  bytes = bytes;
  flags = phdr.p_flags;
  align = phdr.p_align;
}

module _ (image : List ℕ) where
  unfoldable pub range_text : ProgramHeader → ℕ → Text
  range_text phdr file_end =
      codes "PT_LOAD file range 0x"
      ++ (to_hex phdr.p_offset
          ++ (codes "..0x"
              ++ (to_hex file_end ++ (codes " exceeds image size 0x" ++ to_hex (length image)))))

  -- The contents of a segment: the file's part, and zeros.
  unfoldable pub read_contents : ProgramHeader → Outcome ElfError (List ℕ)
  read_contents phdr =
      ok_or_else (checked_add phdr.p_offset phdr.p_filesz)
        (truncated (codes "PT_LOAD offset+filesz overflows"))
      >>= λ file_end.
          if ltb (length image) file_end
          then error (truncated (range_text phdr file_end))
          else (zeroed phdr.p_memsz >>= λ bytes.
              copy_to_front bytes (take (file_end - phdr.p_offset) (drop phdr.p_offset image)))

  -- The loop over the `PT_LOAD` headers, with the map and the segments so far.
  unfoldable pub load_segments :
      List ProgramHeader → MemoryMap → List Segment → Outcome ElfError (List Segment)
  load_segments [] m segments = ok segments
  load_segments (phdr ∷ phdrs) m segments = claim m phdr >>= λ m'. read_contents phdr >>= λ bytes.
      load_segments phdrs m' (segments ++ segment_of phdr bytes ∷ [])

module _ (goblin : Goblin) where
  unfoldable pub pt_loads : ElfFile → List ProgramHeader
  pt_loads elf = filter (λ p. p.p_type == goblin.pt_load) elf.program_headers

  -- The checks of the header, and the loop.
  unfoldable pub load_parsed : List ℕ → ElfFile → Outcome ElfError LoadedElf
  load_parsed image elf =
      if not elf.is_64
      then error (unsupported_format (codes "32-bit ELF (stage 1 is x86_64 only)"))
      else if not (elf.e_machine == goblin.em_x86_64)
      then error unsupported_machine
      else if not (elf.e_type == goblin.et_exec)
      then error (unsupported_type elf.e_type)
      else (load_segments image (pt_loads elf) empty_map [] >>= λ segments. elim segments [
        | [] ↦ error (bad_phdr (codes "no PT_LOAD segments"))
        | all ↦
            ok (record { entry = elf.entry; segments = all; is_pie = elf.e_type == goblin.et_dyn })
      ])

  unfoldable pub load_elf : List ℕ → Outcome ElfError LoadedElf
  load_elf image =
      if ltb (length image) 4 || not (eq_text (take 4 image) magic)
      then error not_elf
      else (map_err bad_phdr (goblin.parse image) >>= load_parsed image)

  -- `perms_string`
  unfoldable pub perms_string : ℕ → Text
  perms_string flags =
      (if bit_and flags goblin.pf_r == 0 then b'-' else b'R')
      ∷ (if bit_and flags goblin.pf_w == 0 then b'-' else b'W')
      ∷ (if bit_and flags goblin.pf_x == 0 then b'-' else b'X')
      ∷ []
