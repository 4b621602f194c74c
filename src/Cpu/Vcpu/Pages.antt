-- ===== src/Cpu/Vcpu/Pages.antt =====
-- The pages that `map_elf` maps for a segment.
use win_vpwn.Base.{◌+◌, ◌-◌, ◌*◌, ◌/◌, ◌%◌, ◌^◌, ◌≤◌, ◌<◌, max, add_u64, ◌≡◌, arith}
use win_vpwn.Elf.{Segment}
use win_vpwn.Cpu.Vcpu.{page_start, pages_size}

module _ (seg : Segment) where
  pages_size_exact :
      seg.filesz ≤ seg.memsz
      → seg.vaddr + seg.memsz + 0x1000 ≤ 2 ^ 64
      → pages_size seg
        ≡ (seg.vaddr + seg.memsz + 0xfff) / 0x1000 * 0x1000 - seg.vaddr / 0x1000 * 0x1000
  unfolding pages_size
  pages_size_exact file_le fits =
      let end : max (add_u64 seg.vaddr seg.memsz) (add_u64 seg.vaddr seg.filesz)
          ≡ seg.vaddr + seg.memsz =
        omega arith in
      rw end (omega arith)

  -- For a segment whose file part is not longer than its memory part and which ends a page below the
  -- top of the address space: its pages begin at a multiple of the page size, at most a page below
  -- the segment, and are the fewest whole pages from there that cover it.
  pub pages_size_lem :
      seg.filesz ≤ seg.memsz
      → seg.vaddr + seg.memsz + 0x1000 ≤ 2 ^ 64
      → (page_start seg % 0x1000 ≡ 0)
        × (page_start seg ≤ seg.vaddr)
        × (seg.vaddr < page_start seg + 0x1000)
        × (pages_size seg % 0x1000 ≡ 0)
        × (seg.vaddr + seg.memsz ≤ page_start seg + pages_size seg)
        × (page_start seg + pages_size seg < seg.vaddr + seg.memsz + 0x1000)
  unfolding page_start
  pages_size_lem file_le fits =
      let size = pages_size_exact file_le fits in
      (
        omega arith,
        omega arith,
        omega arith,
        omega (arith, size),
        omega (arith, size),
        omega (arith, size),
      )
