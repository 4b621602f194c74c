-- ===== src/Elf/Overlaps.antt =====
-- The error of `load_elf` for segments that overlap.
use win_vpwn.Base.{
  ℕ, ◌+◌, ◌^◌, ◌<◌, List, [], ◌∷◌, true, false, not, ◌||◌, ◌≡◌, refl, arith, ok, error, length,
  take, ltb, eq_text, ==_iff,
}
use win_vpwn.Memory
use win_vpwn.Memory.{MemoryMap, empty_map}
use win_vpwn.Elf.Format.{Goblin, ElfFile, ProgramHeader}
use win_vpwn.Elf.{
  segment_overlap, claim, magic, load_segments, load_parsed, load_elf, pt_loads, overlapped_base,
}
use win_vpwn.Elf.Accepts.{IsLoadable, read_contents-accepts}

abbrev only : ProgramHeader → MemoryMap
only phdr = record {
  regions = record { base = phdr.p_vaddr; size = phdr.p_memsz; prot = phdr.p_flags } ∷ [];
}

claim-only :
    (phdr : ProgramHeader)
    → phdr.p_vaddr + phdr.p_memsz < 2 ^ 64
    → 0 < phdr.p_memsz
    → claim empty_map phdr ≡ ok (only phdr)
unfolding claim Memory.insert
claim-only phdr s filled = ground arith

-- A range that begins below the claimed one and ends in it or above it.
claim_below :
    (low high : ProgramHeader)
    → low.p_vaddr < high.p_vaddr
    → high.p_vaddr < low.p_vaddr + low.p_memsz
    → low.p_vaddr + low.p_memsz < 2 ^ 64
    → high.p_vaddr + high.p_memsz < 2 ^ 64
    → claim (only high) low ≡ error (segment_overlap low.p_vaddr 0)
unfolding claim Memory.insert overlapped_base
claim_below low high below into s s' = ground arith

load_segments_below :
    (image : List ℕ) (low high : ProgramHeader) (phdrs : List ProgramHeader)
    → length image < 2 ^ 64
    → IsLoadable image high
    → low.p_vaddr < high.p_vaddr
    → high.p_vaddr < low.p_vaddr + low.p_memsz
    → low.p_vaddr + low.p_memsz < 2 ^ 64
    → 0 < high.p_memsz
    → load_segments image (high ∷ low ∷ phdrs) empty_map [] ≡ error (segment_overlap low.p_vaddr 0)
unfolding load_segments IsLoadable
load_segments_below image low high phdrs small loadable below into s filled =
    let claimed = claim-only high loadable.0 filled in
    let reads = read_contents-accepts image high small loadable in
    let refused = claim_below low high below into s loadable.0 in rw (claimed, reads, refused) refl

-- An image of fewer than 2^64 bytes passes the checks of its header, its first `PT_LOAD` header can
-- be loaded and is not empty in memory, and the second begins below it and reaches into it, ending inside the
-- address space: the loader refuses the image as an overlap of the second segment with a segment at
-- 0, not with the one that it overlaps.
pub load_elf-overlap_below :
    (goblin : Goblin) (image : List ℕ) (elf : ElfFile) (high low : ProgramHeader)
    (phdrs : List ProgramHeader)
    → (ltb (length image) 4 || not (eq_text (take 4 image) magic)) ≡ false
    → goblin.parse image ≡ ok elf
    → elf.is_64 ≡ true
    → elf.e_machine ≡ goblin.em_x86_64
    → elf.e_type ≡ goblin.et_exec
    → pt_loads goblin elf ≡ high ∷ low ∷ phdrs
    → length image < 2 ^ 64
    → IsLoadable image high
    → low.p_vaddr < high.p_vaddr
    → high.p_vaddr < low.p_vaddr + low.p_memsz
    → low.p_vaddr + low.p_memsz < 2 ^ 64
    → 0 < high.p_memsz
    → load_elf goblin image ≡ error (segment_overlap low.p_vaddr 0)
unfolding load_elf load_parsed
load_elf-overlap_below goblin image elf high low phdrs m parsed is_64 machine type loads small
      loadable below into s filled =
    let stops = load_segments_below image low high phdrs small loadable below into s filled in
    rw (m, parsed, loads, stops, is_64, (==_iff _ _).1 machine, (==_iff _ _).1 type)
