-- ===== src/Python/Started.antt =====
-- What the guest of `run_elf` finds in memory when it starts.
use win_vpwn.Base.{
  zero, suc, ◌∷◌, [], some-injective, ℕ, ◌+◌, ◌-◌, ◌<◌, List, any, Option, some, ◌≡◌, refl, sym, ap,
  subst, ◌∙◌, arith, ok, length, length-replicate, replicate, get_elem?, get_elem?-replicate, true,
  false,
}
use win_vpwn.Base.Exec.{◌>>◌}
use win_vpwn.Memory.Place.{IsWellFormed}
use win_vpwn.Memory.Claims.{in_range}
use win_vpwn.Trace.{TraceSink}
use win_vpwn.Elf.{Segment, LoadedElf, load_elf}
use win_vpwn.Elf.Format.{Goblin, ProgramHeader}
use win_vpwn.Elf.Segments.{AllLoaded, load_elf-ok}
use win_vpwn.Cpu.Engine.{Unicorn}
use win_vpwn.Cpu.Memory.{EngineMemory}
use win_vpwn.Cpu.Memory.Takes.{Holds, Takes, >>-Takes}
use win_vpwn.Cpu.Memory.Loaded.{overlays, map_elf-Takes}
use win_vpwn.Cpu.Memory.Seen.{
  read_guest-mem_read, read_guest-segment, memory_part-in_pages, overlays_inside,
}
use win_vpwn.Cpu.Memory.Stack.{cleared, map_stack-Takes, setup_initial_state-Takes}
use win_vpwn.Cpu.Vcpu.{
  Vcpu, map_elf, map_stack, setup_initial_state, read_guest, stack_base, stack_size,
}
use win_vpwn.Cpu.Vcpu.Mapping.{AllLow, IsLow, in_pages}
use win_vpwn.Cpu.Vcpu.Claimed.{PagesApart}
use win_vpwn.Cpu.Vcpu.Ready.{new_vcpu-IsReady, new_vcpu-ok}
use win_vpwn.Python.{boot, set_up, run_dispatch}
use win_vpwn.Python.Boot.{boot-new}
use win_vpwn.Python.Apart.{set_up-apart}

-- Memory with the segments of an image and, over them, the stack.
abbrev started : (ℕ → Option ℕ) → List Segment → ℕ → Option ℕ
started f segs = cleared (overlays f segs) stack_base stack_size

-- The first frame lies in the stack.
frame_in_stack :
    (f : ℕ → Option ℕ) (a : ℕ)
    → cleared (cleared f stack_base stack_size) (stack_base + stack_size - 0x20) 0x20 a
      ≡ cleared f stack_base stack_size a
frame_in_stack f a = ground arith

-- A segment among low ones is low, and its pages are among theirs.
one_of :
    (segs : List Segment) (i : ℕ) (seg : Segment) (a : ℕ)
    → AllLow segs
    → get_elem? segs i ≡ some seg
    → IsLow seg × (in_pages seg a ≡ true → any (λ s. in_pages s a) segs ≡ true)
unfolding AllLow
one_of [] i seg a low at = cc
one_of (s ∷ segs) zero seg a low at =
    let same : s ≡ seg = some-injective at in
    (subst IsLow same low.0, λ inside. rw (ap (λ t. in_pages t a) same, inside) refl)
one_of (s ∷ segs) (suc i) seg a low at =
    let (here, among) = one_of segs i seg a low.1 at in
    (here, λ inside. let later = among inside in ground (arith, later))

module _ (u : Unicorn) (memory : EngineMemory u) (goblin : Goblin) (elf : LoadedElf)
    (low : AllLow elf.segments) where
  set_up-Takes :
      (f : ℕ → Option ℕ)
      → Takes u memory
          (set_up u goblin elf)
          f
          (cleared (started f elf.segments) (stack_base + stack_size - 0x20) 0x20)
  set_up-Takes f =
      let stack = map_stack u stack_base stack_size in
      let setup = setup_initial_state u elf.entry (stack_base + stack_size) in
      let f1 = overlays f elf.segments in
      let f2 = started f elf.segments in
      let f3 = cleared f2 (stack_base + stack_size - 0x20) 0x20 in
      >>-Takes u memory (map_elf u elf) (stack >> setup) f f1 f3 (map_elf-Takes u memory elf f low)
        (>>-Takes u memory stack setup f1 f2 f3 (map_stack-Takes u memory stack_base stack_size f1)
          (setup_initial_state-Takes u memory elf.entry (stack_base + stack_size) f2 (omega arith)
            (omega arith)))

  started_segment :
      (image : List ℕ) (phdrs : List ProgramHeader) (f : ℕ → Option ℕ) (i : ℕ) (seg : Segment)
      (j : ℕ)
      → AllLoaded image phdrs elf.segments
      → PagesApart elf.segments
      → ((a : ℕ)
          → any (λ s. in_pages s a) elf.segments ≡ true
          → in_range stack_base stack_size a ≡ false)
      → get_elem? elf.segments i ≡ some seg
      → j < seg.memsz
      → started f elf.segments (seg.vaddr + j) ≡ get_elem? seg.bytes j
  started_segment image phdrs f i seg j all apart clear at h =
      let (here, among) = one_of elf.segments i seg (seg.vaddr + j) low at in
      let covered = memory_part-in_pages seg (seg.vaddr + j) here (ground (arith, h)) in
      let outside = clear (seg.vaddr + j) (among covered) in
      rw outside (overlays_inside image phdrs f elf.segments i seg j all low apart at h)

  -- When `run_elf` has set a CPU up for an image that the loader gave, whose segments end two pages
  -- below the top of the address space, then `read_guest` of any segment's range returns the
  -- segment's bytes, its file part and zeros, and `read_guest` of the stack returns zeros.
  pub boot-read_guest :
      (image : List ℕ) (sink : TraceSink) (v : Vcpu u)
      → load_elf goblin image ≡ ok elf
      → boot u goblin image sink ≡ ok v
      → ((i : ℕ) (seg : Segment)
          → get_elem? elf.segments i ≡ some seg
          → read_guest u v seg.vaddr seg.memsz ≡ ok seg.bytes)
        × (read_guest u v stack_base stack_size ≡ ok (replicate stack_size 0))
  unfolding Takes Holds
  boot-read_guest image sink v loads booted =
      let (v0, new, done, end) = boot-new u goblin image sink elf v loads booted in
      let d = run_dispatch u goblin sink in
      let (s0, made) = new_vcpu-ok u d v0 new in
      let well : IsWellFormed v0.map = rw made tt in
      let loaded0 : v0.uc ≡ some s0 = ap (λ (w : Vcpu u). w.uc) made in
      let (apart, clear) =
        set_up-apart u goblin elf low d v0 (new_vcpu-IsReady u d v0 new) well done in
      let f = memory.byte s0 in
      let (s, loaded, view) = set_up-Takes f v0 (s0, loaded0, λ a. refl) done in
      let at_v : v.uc ≡ some s = ap (λ (w : Vcpu u). w.uc) end ∙ loaded in
      let (file, parsed, machine, type, entry, pie, some_seg, all) =
        load_elf-ok goblin image elf loads in
      let bytes_of : (a : ℕ) → memory.byte s a ≡ started f elf.segments a =
        λ a. view a ∙ frame_in_stack (overlays f elf.segments) a in
      let size : length {A = ℕ} (replicate stack_size 0) ≡ stack_size =
        length-replicate {A = ℕ} stack_size 0 in
      let zeros =
        memory.mem_read-byte s stack_base (replicate stack_size 0) (omega (arith, size)) (λ j h.
          let below : j < stack_size = omega (arith, h, size) in
          let inside : in_range stack_base stack_size (stack_base + j) ≡ true =
            ground (arith, below) in
          bytes_of (stack_base + j)
          ∙ rw inside (sym (get_elem?-replicate {A = ℕ} stack_size j 0 below))) in
      (
        λ i seg at. read_guest-segment u memory goblin image elf v s i seg loads at at_v (λ j h.
            bytes_of (seg.vaddr + j) ∙ started_segment image _ f i seg j all apart clear at h),
        read_guest-mem_read u memory v s stack_base stack_size (replicate stack_size 0) at_v
            (omega arith) (sym (ap (u.mem_read s stack_base) size) ∙ zeros),
      )
