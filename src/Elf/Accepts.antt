-- ===== src/Elf/Accepts.antt =====
-- The images that `load_elf` accepts, and what it makes of them.
use win_vpwn.Base.{
  ℕ, ◌+◌, ◌-◌, ◌^◌, ◌≤◌, ◌<◌, List, [], ◌∷◌, ◌++◌, map, true, false, not, ◌||◌, ◌≡◌, ◌≢◌, ◌↔◌, refl,
  sym, ap, ◌∙◌, subst, arith, ok, length, take, drop, replicate, length-replicate, drop-replicate,
  append-nil, append_assoc, isize_max, ltb, ◌==◌, ==_iff, eq_text, inl, inr, Bool-cases, sub_u64,
}
use win_vpwn.Memory
use win_vpwn.Memory.{MemoryMap, empty_map}
use win_vpwn.Memory.Claims.{claimed, in_range, insert-free_iff}
use win_vpwn.Vkernel.Guest.{zeroed}
use win_vpwn.Elf.Format.{Goblin, ElfFile, ProgramHeader}
use win_vpwn.Elf.{
  Segment, LoadedElf, segment_of, read_contents, copy_to_front, claim, load_segments, load_parsed,
  load_elf, pt_loads, magic,
}
use win_vpwn.Elf.Segments.{
  file_part, length-file_part, AllLoaded, load_segments-ok, load_elf-parsed, load_parsed-ok,
}
use win_vpwn.Elf.Apart.{covers, Tracks, claim-Tracks, covers-append, load_elf-apart}

-- The segment of a header: the file's bytes that it names, and zeros up to its memory size.
abbrev pub expected : List ℕ → ProgramHeader → Segment
expected image phdr =
    segment_of phdr (file_part image phdr ++ replicate (phdr.p_memsz - phdr.p_filesz) 0)

-- The segment ends inside the address space, its file part lies in the image and is not longer than
-- the segment, and the segment can be allocated.
unfoldable pub IsLoadable : List ℕ → ProgramHeader → Type 0
IsLoadable image phdr =
    (phdr.p_vaddr + phdr.p_memsz < 2 ^ 64)
    × (phdr.p_offset + phdr.p_filesz ≤ length image)
    × (phdr.p_filesz ≤ phdr.p_memsz)
    × (phdr.p_memsz ≤ isize_max)

unfoldable pub AllLoadable : List ℕ → List ProgramHeader → Type 0
AllLoadable image [] = Unit
AllLoadable image (phdr ∷ phdrs) = IsLoadable image phdr × AllLoadable image phdrs

pub read_contents-accepts :
    (image : List ℕ) (phdr : ProgramHeader)
    → length image < 2 ^ 64
    → IsLoadable image phdr
    → read_contents image phdr
      ≡ ok (file_part image phdr ++ replicate (phdr.p_memsz - phdr.p_filesz) 0)
unfolding read_contents zeroed copy_to_front IsLoadable
read_contents-accepts image phdr small (in_space, in_image, fits, allocated) =
    let size : phdr.p_offset + phdr.p_filesz - phdr.p_offset ≡ phdr.p_filesz = omega arith in
    let part = length-file_part image phdr in_image in
    let zeros : length (replicate {A = ℕ} phdr.p_memsz 0) ≡ phdr.p_memsz =
      length-replicate phdr.p_memsz 0 in
    let rest : drop phdr.p_filesz (replicate {A = ℕ} phdr.p_memsz 0)
        ≡ replicate (phdr.p_memsz - phdr.p_filesz) 0 =
      drop-replicate phdr.p_filesz phdr.p_memsz 0 in
    ground (arith, size, part, zeros, rest)

claim-accepts :
    (m : MemoryMap) (phdr : ProgramHeader) (before : List Segment)
    → phdr.p_vaddr + phdr.p_memsz < 2 ^ 64
    → Tracks m before
    → ((a : ℕ) → in_range phdr.p_vaddr phdr.p_memsz a ≡ true → covers a before ≡ 0)
    → (m' : MemoryMap) × (claim m phdr ≡ ok m')
unfolding claim
claim-accepts m phdr before fits t free =
    let size : sub_u64 (phdr.p_vaddr + phdr.p_memsz) phdr.p_vaddr ≡ phdr.p_memsz = ground arith in
    let placed : (Memory.insert m phdr.p_vaddr phdr.p_memsz phdr.p_flags).0 ≡ ok tt =
      elim (Bool-cases (phdr.p_memsz == 0)) [
        | inl empty ↦ unfold Memory.insert in rw empty refl
        | inr filled ↦
            (insert-free_iff m phdr.p_vaddr phdr.p_memsz phdr.p_flags t.well_formed fits
                (ground (arith, filled))).1
              (λ a i. let none = free a i in t.claims a ∙ ground (arith, none))
      ] in
    ((Memory.insert m phdr.p_vaddr phdr.p_memsz phdr.p_flags).1, ground (arith, fits, size, placed))

-- Headers that can be loaded, and whose segments are apart from those before, become their segments.
load_segments-accepts :
    (image : List ℕ) (phdrs : List ProgramHeader) (m : MemoryMap) (before : List Segment)
    → length image < 2 ^ 64
    → AllLoadable image phdrs
    → Tracks m before
    → ((a : ℕ) → covers a (before ++ map (expected image) phdrs) ≤ 1)
    → load_segments image phdrs m before ≡ ok (before ++ map (expected image) phdrs)
unfolding load_segments AllLoadable IsLoadable
load_segments-accepts image [] m before small all t once = ap ok (sym (append-nil before))
load_segments-accepts image (phdr ∷ phdrs) m before small all t once =
    let rest = map (expected image) phdrs in
    let (m', claimed) = claim-accepts m phdr before all.0.0 t (λ a i.
      let total = covers-append a before (expected image phdr ∷ rest) in
      let most = once a in ground (arith, i, total, most)) in
    let bytes = file_part image phdr ++ replicate (phdr.p_memsz - phdr.p_filesz) 0 in
    let reads = read_contents-accepts image phdr small all.0 in
    let whole = append_assoc before (expected image phdr ∷ []) rest in
    let more =
      load_segments-accepts image phdrs m' (before ++ expected image phdr ∷ []) small all.1
        (claim-Tracks m m' phdr before bytes t claimed)
        (λ a. subst (λ segs. covers a segs ≤ 1) (sym whole) (once a)) in
    rw (claimed, reads) (more ∙ ap ok whole)

AllLoaded-AllLoadable :
    (image : List ℕ) (phdrs : List ProgramHeader) (segs : List Segment)
    → AllLoaded image phdrs segs
    → AllLoadable image phdrs × (segs ≡ map (expected image) phdrs)
unfolding AllLoadable IsLoadable
AllLoaded-AllLoadable image [] [] l = (tt, refl)
AllLoaded-AllLoadable image [] (seg ∷ segs) l = absurd l
AllLoaded-AllLoadable image (phdr ∷ phdrs) [] l = absurd l
AllLoaded-AllLoadable image (phdr ∷ phdrs) (seg ∷ segs) (l, ls) =
    let (all, same) = AllLoaded-AllLoadable image phdrs segs ls in
    let first : seg ≡ expected image phdr = l.header ∙ ap (segment_of phdr) l.contents in
    (
      ((l.in_space, l.in_image, l.fits, l.allocated), all),
      ap (λ s. s ∷ segs) first ∙ ap (λ ss. expected image phdr ∷ ss) same,
    )

load_elf-magic :
    (goblin : Goblin) (image : List ℕ) (loaded : LoadedElf)
    → load_elf goblin image ≡ ok loaded
    → (ltb (length image) 4 || not (eq_text (take 4 image) magic)) ≡ false
unfolding load_elf
load_elf-magic goblin image loaded h =
    elim (Bool-cases (ltb (length image) 4 || not (eq_text (take 4 image) magic))) [
      | inl bad ↦ cc (rw bad at h)
      | inr good ↦ good
    ]

not_empty {ℓ} : {A : Type ℓ} (xs : List A) → xs ≢ [] → (x : A) × (ys : List A) × (xs ≡ x ∷ ys)
not_empty [] h = absurd (h refl)
not_empty (x ∷ xs) h = (x, xs, refl)

module _ (goblin : Goblin) (image : List ℕ) where
  -- What the loader makes of a parsed file.
  abbrev pub loaded_from : ElfFile → LoadedElf
  loaded_from elf = record {
    entry = elf.entry;
    segments = map (expected image) (pt_loads goblin elf);
    is_pie = false;
  }

  -- A 64-bit x86-64 `ET_EXEC` file with segments that can be loaded, and cover no address twice.
  abbrev pub IsAccepted : ElfFile → Type 0
  IsAccepted elf =
      (elf.is_64 ≡ true)
      × (elf.e_machine ≡ goblin.em_x86_64)
      × (elf.e_type ≡ goblin.et_exec)
      × (pt_loads goblin elf ≢ [])
      × AllLoadable image (pt_loads goblin elf)
      × ((a : ℕ) → covers a (map (expected image) (pt_loads goblin elf)) ≤ 1)

  load_parsed-accepts :
      (elf : ElfFile)
      → length image < 2 ^ 64
      → IsAccepted elf
      → load_parsed goblin image elf ≡ ok (loaded_from elf)
  unfolding load_parsed
  load_parsed-accepts elf small (is_64, machine, type, some_seg, all, once) =
      let run =
        load_segments-accepts image (pt_loads goblin elf) empty_map [] small all
          (record { well_formed = tt; claims = λ a. refl; once = λ a. omega arith }) once in
      let not_pie : (elf.e_type == goblin.et_dyn) ≡ false =
        ground (arith, type, goblin.et_exec_value, goblin.et_dyn_value) in
      let (first, more, e) = not_empty (pt_loads goblin elf) some_seg in
      rw (run, e, (==_iff _ _).1 machine, (==_iff _ _).1 type, not_pie, is_64) refl

  -- An image of fewer than 2^64 bytes is loaded exactly if it begins with the magic bytes and goblin
  -- parses it, in either byte order, as a 64-bit x86-64 `ET_EXEC` file with a `PT_LOAD` header, whose `PT_LOAD` headers
  -- each end inside the address space, have their file part in the image and not longer than
  -- the segment, can be allocated, and together cover no address twice; the result then is the
  -- entry point and the segment of each of these headers, in order.
  pub load_elf-ok_iff :
      (loaded : LoadedElf)
      → length image < 2 ^ 64
      → (load_elf goblin image ≡ ok loaded) ↔ (
          (elf : ElfFile) × ((ltb (length image) 4 || not (eq_text (take 4 image) magic)) ≡ false)
          × (goblin.parse image ≡ ok elf)
          × (loaded ≡ loaded_from elf)
          × IsAccepted elf)
  unfolding load_elf
  load_elf-ok_iff loaded small = (
    λ h.
        let (elf, parsed, rest) = load_elf-parsed goblin image loaded h in
        let facts = load_parsed-ok goblin image loaded elf rest in
        let (segs, same, each) =
          load_segments-ok image (pt_loads goblin elf) empty_map [] loaded.segments facts.0 in
        let (all, from) = AllLoaded-AllLoadable image (pt_loads goblin elf) segs each in
        let segments : loaded.segments ≡ map (expected image) (pt_loads goblin elf) = same ∙ from in
        let not_pie : loaded.is_pie ≡ false =
          ground (arith, facts, goblin.et_exec_value, goblin.et_dyn_value) in
        (
          elf,
          load_elf-magic goblin image loaded h,
          parsed,
          (λ i. record { entry = facts.2 i; segments = segments i; is_pie = not_pie i }),
          (
            facts.4,
            facts.5,
            facts.6,
            (λ none. facts.1 (segments ∙ ap (map (expected image)) none)),
            all,
            (λ a. subst (λ s. covers a s ≤ 1) segments (load_elf-apart goblin image loaded h a)),
          ),
        ),
    λ (elf, good, parsed, same, accepted).
        rw (good, parsed, same) (load_parsed-accepts elf small accepted),
  )
