-- ===== src/Elf/Apart.antt =====
-- The guest addresses that the segments of a loaded image cover.
use win_vpwn.Base.{
  ℕ, suc, ◌+◌, ◌≤◌, List, [], ◌∷◌, ◌++◌, true, false, ◌||◌, ◌≡◌, refl, ap, subst, arith, ok, leb,
  if◌then◌else◌,
}
use win_vpwn.Memory.{MemoryMap, empty_map}
use win_vpwn.Memory.Place.{IsWellFormed, insert-IsWellFormed}
use win_vpwn.Memory.Claims.{claimed, in_range, claimed-insert, insert-free_iff}
use win_vpwn.Elf.Format.{Goblin, ProgramHeader}
use win_vpwn.Elf.{Segment, LoadedElf, segment_of, claim, load_segments, pt_loads, load_elf}
use win_vpwn.Elf.Segments.{claim-ok, load_step, load_elf-segments}

-- How many of the segments cover the address.
abbrev pub covers : ℕ → List Segment → ℕ
covers a [] = 0
covers a (seg ∷ segs) =
    let rest = covers a segs in if in_range seg.vaddr seg.memsz a then suc rest else rest

pub covers-append : (a : ℕ) (xs ys : List Segment) → covers a (xs ++ ys) ≡ covers a xs + covers a ys
covers-append a [] ys = omega arith
covers-append a (x ∷ xs) ys = ground (arith, covers-append a xs ys)

-- The map of the loop claims what the segments so far cover, and they cover nothing twice.
pub record Tracks (m : MemoryMap) (segs : List Segment) : Type 0 where
  pub well_formed : IsWellFormed m
  pub claims : (a : ℕ) → claimed m a ≡ leb 1 (covers a segs)
  pub once : (a : ℕ) → covers a segs ≤ 1

module _ (m m' : MemoryMap) (phdr : ProgramHeader) (segs : List Segment) (bytes : List ℕ) where
  fresh :
      IsWellFormed m
      → claim m phdr ≡ ok m'
      → (a : ℕ) → in_range phdr.p_vaddr phdr.p_memsz a ≡ true
      → claimed m a ≡ false
  fresh w h a i =
      let (fits, inserted) = claim-ok m m' phdr h in
      (insert-free_iff m phdr.p_vaddr phdr.p_memsz phdr.p_flags w fits (ground (arith, i))).0
        (ap (λ r. r.0) inserted) a i

  pub claim-Tracks :
      Tracks m segs → claim m phdr ≡ ok m' → Tracks m' (segs ++ segment_of phdr bytes ∷ [])
  claim-Tracks t h =
      let (fits, inserted) = claim-ok m m' phdr h in
      let wf : IsWellFormed m' =
        subst (λ r. IsWellFormed r.1) inserted
          (insert-IsWellFormed m phdr.p_vaddr phdr.p_memsz phdr.p_flags t.well_formed fits) in
      let new = λ (a : ℕ).
        subst (λ r. claimed r.1 a ≡ (claimed m a || in_range phdr.p_vaddr phdr.p_memsz a)) inserted
          (claimed-insert m phdr.p_vaddr phdr.p_memsz phdr.p_flags a fits
            (ap (λ r. r.0) inserted)) in
      record {
        well_formed = wf;
        claims = λ a.
            ground (arith, new a, t.claims a, covers-append a segs (segment_of phdr bytes ∷ []));
        once = λ a. ground (
          arith,
          fresh t.well_formed h a,
          t.claims a,
          t.once a,
          covers-append a segs (segment_of phdr bytes ∷ []),
        );
      }

load_segments-Tracks :
    (image : List ℕ) (phdrs : List ProgramHeader) (m : MemoryMap) (before segs : List Segment)
    → Tracks m before
    → load_segments image phdrs m before ≡ ok segs
    → (a : ℕ) → covers a segs ≤ 1
load_segments-Tracks image [] m before segs t h a = unfold load_segments in ground (arith, t.once a)
load_segments-Tracks image (phdr ∷ phdrs) m before segs t h a =
    let (m', bytes, claimed, read, more) = load_step image phdr phdrs m before segs h in
    load_segments-Tracks image phdrs m' _ segs (claim-Tracks m m' phdr before bytes t claimed) more
      a

-- In a loaded image every guest address is covered by one segment at most.
pub load_elf-apart :
    (goblin : Goblin) (image : List ℕ) (loaded : LoadedElf)
    → load_elf goblin image ≡ ok loaded
    → (a : ℕ) → covers a loaded.segments ≤ 1
load_elf-apart goblin image loaded h =
    let (elf, run) = load_elf-segments goblin image loaded h in
    load_segments-Tracks image (pt_loads goblin elf) empty_map [] loaded.segments
      (record { well_formed = tt; claims = λ a. refl; once = λ a. omega arith }) run
