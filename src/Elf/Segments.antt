-- ===== src/Elf/Segments.antt =====
-- What `load_elf` returns, segment by segment.
use win_vpwn.Base.{
  ℕ, ◌+◌, ◌-◌, ◌^◌, ◌≤◌, ◌<◌, min, List, [], ◌∷◌, ◌++◌, true, false, not, ◌||◌, ◌≡◌, ◌≢◌, refl, sym,
  ◌∙◌, subst, arith, Outcome, ok, error, panic, >>=-eq-ok, map_err, length, take, drop, replicate,
  length-take, length-drop, length-replicate, drop-replicate, append-nil, append_assoc, ltb, ◌==◌,
  sub_u64, isize_max, Done, eq_text, Text, inl, inr, Bool-cases,
}
use win_vpwn.Memory
use win_vpwn.Memory.{MemoryMap, MmapError, empty_map}
use win_vpwn.Vkernel.Guest.{zeroed}
use win_vpwn.Elf.Format.{Goblin, ElfFile, ProgramHeader}
use win_vpwn.Elf.{
  or_overlap, magic, bad_phdr, Segment, LoadedElf, ElfError, segment_of, read_contents,
  copy_to_front, claim, load_segments, pt_loads, load_parsed, load_elf,
}

-- The bytes of the image that a header names.
abbrev pub file_part : List ℕ → ProgramHeader → List ℕ
file_part image phdr = take phdr.p_filesz (drop phdr.p_offset image)

-- A segment is its header's: same numbers, the file's bytes, then zeros, all within bounds.
pub record IsLoaded (image : List ℕ) (phdr : ProgramHeader) (seg : Segment) : Type 0 where
  pub header : seg ≡ segment_of phdr seg.bytes
  pub in_space : phdr.p_vaddr + phdr.p_memsz < 2 ^ 64
  pub in_image : phdr.p_offset + phdr.p_filesz ≤ length image
  pub fits : phdr.p_filesz ≤ phdr.p_memsz
  pub allocated : phdr.p_memsz ≤ isize_max
  pub contents : seg.bytes ≡ file_part image phdr ++ replicate (phdr.p_memsz - phdr.p_filesz) 0

-- The segments are those of the headers, one for one, in order.
abbrev pub AllLoaded : List ℕ → List ProgramHeader → List Segment → Type 0
AllLoaded image [] [] = Unit
AllLoaded image [] (seg ∷ segs) = ⊥
AllLoaded image (phdr ∷ phdrs) [] = ⊥
AllLoaded image (phdr ∷ phdrs) (seg ∷ segs) = IsLoaded image phdr seg × AllLoaded image phdrs segs

copy_to_front-ok :
    (n : ℕ) (file bytes : List ℕ)
    → copy_to_front {E = ElfError} (replicate n 0) file ≡ ok bytes
    → (length file ≤ n) × (bytes ≡ file ++ replicate (n - length file) 0)
unfolding copy_to_front
copy_to_front-ok n file bytes h =
    let whole : length (replicate {A = ℕ} n 0) ≡ n = length-replicate n 0 in
    let tail : drop (length file) (replicate {A = ℕ} n 0) ≡ replicate (n - length file) 0 =
      drop-replicate (length file) n 0 in
    ground (arith, whole, tail)

or_overlap-ok :
    (vaddr : ℕ) (r : Outcome MmapError Done × MemoryMap) (m : MemoryMap)
    → or_overlap vaddr r ≡ ok m
    → r ≡ (ok tt, m)
or_overlap-ok vaddr (ok done, m') m h = ground arith
or_overlap-ok vaddr (error e, m') m h = cc
or_overlap-ok vaddr (panic, m') m h = cc

pub claim-ok :
    (m m' : MemoryMap) (phdr : ProgramHeader)
    → claim m phdr ≡ ok m'
    → (phdr.p_vaddr + phdr.p_memsz < 2 ^ 64)
      × (Memory.insert m phdr.p_vaddr phdr.p_memsz phdr.p_flags ≡ (ok tt, m'))
unfolding claim
claim-ok m m' phdr h = elim (Bool-cases (ltb (phdr.p_vaddr + phdr.p_memsz) (2 ^ 64))) [
  | inl below ↦
      let size : sub_u64 (phdr.p_vaddr + phdr.p_memsz) phdr.p_vaddr ≡ phdr.p_memsz = ground arith in
      (ground arith, or_overlap-ok phdr.p_vaddr _ m' (rw size at (rw below at h)))
  | inr above ↦ cc (rw above at h)
]

-- The slice of the image that a header names is as long as the header says.
pub length-file_part :
    (image : List ℕ) (phdr : ProgramHeader)
    → phdr.p_offset + phdr.p_filesz ≤ length image
    → length (file_part image phdr) ≡ phdr.p_filesz
length-file_part image phdr h =
    let dropped : length (drop phdr.p_offset image) ≡ length image - phdr.p_offset =
      length-drop phdr.p_offset image in
    let taken : length (file_part image phdr)
        ≡ min phdr.p_filesz (length (drop phdr.p_offset image)) =
      length-take phdr.p_filesz (drop phdr.p_offset image) in
    omega arith

pub read_contents-ok :
    (image : List ℕ) (phdr : ProgramHeader) (bytes : List ℕ)
    → read_contents image phdr ≡ ok bytes
    → phdr.p_vaddr + phdr.p_memsz < 2 ^ 64
    → IsLoaded image phdr (segment_of phdr bytes)
unfolding read_contents zeroed
read_contents-ok image phdr bytes h s =
    elim (Bool-cases (ltb (phdr.p_offset + phdr.p_filesz) (2 ^ 64))) [
      | inr above ↦ cc (rw above at h)
      | inl below ↦ elim (Bool-cases (ltb (length image) (phdr.p_offset + phdr.p_filesz))) [
        | inl past ↦ cc (rw past at (rw below at h))
        | inr inside ↦ elim (Bool-cases (ltb isize_max phdr.p_memsz)) [
          | inl huge ↦ cc (rw huge at (rw inside at (rw below at h)))
          | inr allocated ↦
              let size : phdr.p_offset + phdr.p_filesz - phdr.p_offset ≡ phdr.p_filesz =
                omega arith in
              let copied = rw size at (rw allocated at (rw inside at (rw below at h))) in
              let copy = copy_to_front-ok phdr.p_memsz (file_part image phdr) bytes copied in
              let in_image : phdr.p_offset + phdr.p_filesz ≤ length image = ground arith in
              let whole = length-file_part image phdr in_image in
              record {
                header = refl;
                in_space = s;
                in_image = in_image;
                fits = omega (arith, copy.0, whole);
                allocated = ground arith;
                contents = rw whole at copy.1;
              }
        ]
      ]
    ]

-- One round of the loop that comes to an end.
pub load_step :
    (image : List ℕ) (phdr : ProgramHeader) (phdrs : List ProgramHeader) (m : MemoryMap)
    (before segs : List Segment)
    → load_segments image (phdr ∷ phdrs) m before ≡ ok segs
    → (m' : MemoryMap) × (bytes : List ℕ) × (claim m phdr ≡ ok m')
      × (read_contents image phdr ≡ ok bytes)
      × (load_segments image phdrs m' (before ++ segment_of phdr bytes ∷ []) ≡ ok segs)
unfolding load_segments
load_step image phdr phdrs m before segs h =
    let (m', claimed, rest) = >>=-eq-ok (claim m phdr) _ h in
    let (bytes, read, more) = >>=-eq-ok (read_contents image phdr) _ rest in
    (m', bytes, claimed, read, more)

-- Every header of the loop becomes its segment, behind those that were there.
pub load_segments-ok :
    (image : List ℕ) (phdrs : List ProgramHeader) (m : MemoryMap) (before segs : List Segment)
    → load_segments image phdrs m before ≡ ok segs
    → (loaded : List Segment) × (segs ≡ before ++ loaded) × AllLoaded image phdrs loaded
load_segments-ok image [] m before segs h =
    ([], unfold load_segments in (ground (arith, append-nil before)), tt)
load_segments-ok image (phdr ∷ phdrs) m before segs h =
    let (m', bytes, claimed, read, more) = load_step image phdr phdrs m before segs h in
    let (loaded, all, each) = load_segments-ok image phdrs m' _ segs more in
    (
      segment_of phdr bytes ∷ loaded,
      all ∙ append_assoc before (segment_of phdr bytes ∷ []) loaded,
      (read_contents-ok image phdr bytes read (claim-ok m m' phdr claimed).0, each),
    )

module _ (goblin : Goblin) (image : List ℕ) (loaded : LoadedElf) where
  pub load_parsed-ok :
      (elf : ElfFile)
      → load_parsed goblin image elf ≡ ok loaded
      → (load_segments image (pt_loads goblin elf) empty_map [] ≡ ok loaded.segments)
        × (loaded.segments ≢ [])
        × (loaded.entry ≡ elf.entry)
        × (loaded.is_pie ≡ (elf.e_type == goblin.et_dyn))
        × (elf.is_64 ≡ true)
        × (elf.e_machine ≡ goblin.em_x86_64)
        × (elf.e_type ≡ goblin.et_exec)
  unfolding load_parsed
  load_parsed-ok elf h = ground arith

  map_err-ok : {elf : ElfFile} (r : Outcome Text ElfFile) → map_err bad_phdr r ≡ ok elf → r ≡ ok elf
  map_err-ok (ok elf) e = ground arith
  map_err-ok (error x) e = cc
  map_err-ok panic e = cc

  -- What a loaded image came from: a parsed file, by the checks of its header and the loop.
  pub load_elf-parsed :
      load_elf goblin image ≡ ok loaded
      → (elf : ElfFile) × (goblin.parse image ≡ ok elf) × (load_parsed goblin image elf ≡ ok loaded)
  unfolding load_elf
  load_elf-parsed h =
      elim (Bool-cases (ltb (length image) 4 || not (eq_text (take 4 image) magic))) [
        | inl short ↦ cc (rw short at h)
        | inr long ↦
            let (elf, parsed, rest) =
              >>=-eq-ok (map_err bad_phdr (goblin.parse image)) _ (rw long at h) in
            (elf, map_err-ok (goblin.parse image) parsed, rest)
      ]

  pub load_elf-segments :
      load_elf goblin image ≡ ok loaded
      → (elf : ElfFile) × (load_segments image (pt_loads goblin elf) empty_map []
          ≡ ok loaded.segments)
  load_elf-segments h =
      let (elf, parsed, rest) = load_elf-parsed h in (elf, (load_parsed-ok elf rest).0)

  -- A loaded image is that of an x86-64 `ET_EXEC` file which goblin parsed: its segments are those
  -- of the `PT_LOAD` headers, in order, each with the file's bytes and zeros after them.
  pub load_elf-ok :
      load_elf goblin image ≡ ok loaded
      → (elf : ElfFile) × (goblin.parse image ≡ ok elf)
        × (elf.e_machine ≡ goblin.em_x86_64)
        × (elf.e_type ≡ goblin.et_exec)
        × (loaded.entry ≡ elf.entry)
        × (loaded.is_pie ≡ false)
        × (loaded.segments ≢ [])
        × AllLoaded image (pt_loads goblin elf) loaded.segments
  load_elf-ok h =
      let (elf, parsed, rest) = load_elf-parsed h in
      let facts = load_parsed-ok elf rest in
      let (segs, same, each) =
        load_segments-ok image (pt_loads goblin elf) empty_map [] loaded.segments facts.0 in
      (
        elf,
        parsed,
        facts.5,
        facts.6,
        facts.2,
        ground (arith, goblin.et_exec_value, goblin.et_dyn_value),
        facts.1,
        subst (AllLoaded image (pt_loads goblin elf)) (sym same) each,
      )
