-- ===== src/Cpu/Vcpu/Claimed.antt =====
-- What of the address space `map_elf` claims.
use win_vpwn.Base.{
  any, ◌||◌, ◌&&◌, ℕ, ◌≤◌, List, [], ◌∷◌, true, false, some, ◌≡◌, sym, ap, ◌∙◌, arith, ok,
}
use win_vpwn.Base.Exec.{>>=-ok}
use win_vpwn.Memory.Place.{IsWellFormed}
use win_vpwn.Memory.Claims.{claimed, claimed-insert, insert-free_iff}
use win_vpwn.Elf.{Segment, LoadedElf}
use win_vpwn.Cpu.Engine.{Unicorn}
use win_vpwn.Cpu.Vcpu.{Vcpu, page_start, pages_size, map_segment, map_segments, map_elf}
use win_vpwn.Cpu.Vcpu.Mapping.{
  IsLow, AllLow, in_pages, pages_fit, map_segment-map, map_segment-inserted,
  map_segment-IsWellFormed, map_elf-segments,
}

-- No address is in a page of two segments.
unfoldable pub PagesApart : List Segment → Type 0
PagesApart [] = Unit
PagesApart (seg ∷ segs) =
    ((a : ℕ) → (in_pages seg a && any (λ s. in_pages s a) segs) ≡ false) × PagesApart segs

module _ (u : Unicorn) where
  map_segment-claimed :
      (seg : Segment) (v : Vcpu u) (a : ℕ)
      → IsLow seg
      → IsWellFormed v.map
      → (map_segment u seg v).0 ≡ ok tt
      → (claimed (map_segment u seg v).1.map a ≡ (claimed v.map a || in_pages seg a))
        × (in_pages seg a ≡ true → claimed v.map a ≡ false)
  unfolding in_pages
  map_segment-claimed seg v a low w h =
      let placed = map_segment-inserted u seg v h in
      let fits = pages_fit seg low in
      (
        rw (map_segment-map u seg v)
            (claimed-insert v.map (page_start seg) (pages_size seg) seg.flags a fits placed),
        λ inside.
            let filled : 1 ≤ pages_size seg = ground arith in
            (insert-free_iff v.map (page_start seg) (pages_size seg) seg.flags w fits filled).0
              placed a inside,
      )

  map_segments-claimed :
      (segs : List Segment) (v : Vcpu u)
      → AllLow segs
      → IsWellFormed v.map
      → (map_segments u segs v).0 ≡ ok tt
      → ((a : ℕ)
          → (claimed (map_segments u segs v).1.map a
              ≡ (claimed v.map a || any (λ s. in_pages s a) segs))
            × ((claimed v.map a && any (λ s. in_pages s a) segs) ≡ false))
        × PagesApart segs
  unfolding map_segments AllLow PagesApart
  map_segments-claimed [] v low w h = (λ a. (ground arith, ground arith), tt)
  map_segments-claimed (seg ∷ segs) v low w h =
      let (done, mapped, rest) = >>=-ok (map_segment u seg) (λ _. map_segments u segs) v tt h in
      let v' = (map_segment u seg v).1 in
      let (later, apart) =
        map_segments-claimed segs v' low.1 (map_segment-IsWellFormed u seg v low.0 w)
          (sym (ap (λ p. p.0) rest) ∙ h) in
      (
        λ a.
            let (claims, free) = map_segment-claimed seg v a low.0 w mapped in
            let (claims', free') = later a in
            (
              ap (λ p. claimed p.1.map a) rest ∙ claims' ∙ ground (arith, claims),
              ground (arith, claims, free, free'),
            ),
        (
          λ a.
              let (claims, free) = map_segment-claimed seg v a low.0 w mapped in
              let (claims', free') = later a in ground (arith, claims, free, free'),
          apart,
        ),
      )

  -- When an image is mapped, the claimed addresses are those claimed before and the pages of its
  -- segments; the pages were free, and no two segments share one.
  pub map_elf-claimed :
      (image : LoadedElf) (v : Vcpu u) (s : u.State)
      → v.uc ≡ some s
      → AllLow image.segments
      → IsWellFormed v.map
      → (map_elf u image v).0 ≡ ok tt
      → ((a : ℕ)
          → (claimed (map_elf u image v).1.map a
              ≡ (claimed v.map a || any (λ s. in_pages s a) image.segments))
            × ((claimed v.map a && any (λ s. in_pages s a) image.segments) ≡ false))
        × PagesApart image.segments
  map_elf-claimed image v s loaded low w h =
      let same = map_elf-segments u image v s loaded in
      rw same (map_segments-claimed image.segments v low w (sym (ap (λ p. p.0) same) ∙ h))
