-- ===== src/Memory/Place.antt =====
-- The order of the regions of a map, and what `insert` makes of it.
use win_vpwn.Base.{
  ℕ, List, [], ◌∷◌, ◌++◌, false, ◌≡◌, refl, ◌+◌, ◌≤◌, ◌<◌, ◌^◌, arith, any, insert_by, sort_by, leb,
  ◌∙◌, ap, ◌==◌, Bool-cases, ◌⊎◌, inl, inr, or_left, or_right,
}
use win_vpwn.Memory.{Region, MemoryMap, overlaps, base_le, insert}

-- A region that is not empty and ends inside the address space.
abbrev pub IsRegion : Region → Type 0
IsRegion r = (1 ≤ r.size) × (r.base + r.size < 2 ^ 64)

-- The first region of the list, if any, starts at `n` or later.
abbrev pub StartsFrom : ℕ → List Region → Type 0
StartsFrom n [] = Unit
StartsFrom n (r ∷ rs) = n ≤ r.base

-- Each region is a region, and ends before the next begins.
abbrev pub IsPacked : List Region → Type 0
IsPacked [] = Unit
IsPacked (r ∷ rs) = IsRegion r × StartsFrom (r.base + r.size) rs × IsPacked rs

abbrev pub IsWellFormed : MemoryMap → Type 0
IsWellFormed m = IsPacked m.regions

-- A packed list is sorted by its bases.
insert_by-packed :
    (r : Region) (rs : List Region)
    → IsRegion r
    → StartsFrom (r.base + r.size) rs
    → insert_by base_le r rs ≡ r ∷ rs
insert_by-packed r [] h s = refl
insert_by-packed r (x ∷ rs) h s = ground arith

StartsFrom-insert_by :
    (n : ℕ) (x : Region) (rs : List Region)
    → n ≤ x.base
    → StartsFrom n rs
    → StartsFrom n (insert_by base_le x rs)
StartsFrom-insert_by n x [] h s = h
StartsFrom-insert_by n x (r ∷ rs) h s = ground arith

-- Two regions that do not overlap by the source's test lie on one side of one another.
pub apart :
    (r x : Region)
    → IsRegion r
    → IsRegion x
    → overlaps r x.base x.size ≡ false
    → (r.base + r.size ≤ x.base) ⊎ (x.base + x.size ≤ r.base)
apart r x hr hx h = ground arith

-- A region that overlaps none of a packed list goes to its place in it.
insert_by-IsPacked :
    (x : Region) (rs : List Region)
    → IsRegion x
    → IsPacked rs
    → any (λ r. overlaps r x.base x.size) rs ≡ false
    → IsPacked (insert_by base_le x rs)
insert_by-IsPacked x [] hx p h = (hx, tt, tt)
insert_by-IsPacked x (r ∷ rs) hx p h = elim (Bool-cases (leb x.base r.base)) [
  | inl le ↦ elim (apart r x p.0 hx (or_left _ _ h)) [
    | inl before ↦ absurd (ground arith)
    | inr after ↦ rw le (hx, after, p)
  ]
  | inr gt ↦ elim (apart r x p.0 hx (or_left _ _ h)) [
    | inl before ↦ rw gt (
      p.0,
      StartsFrom-insert_by (r.base + r.size) x rs before p.1,
      insert_by-IsPacked x rs hx p.2 (or_right (overlaps r x.base x.size) _ h),
    )
    | inr after ↦ absurd (ground arith)
  ]
]

StartsFrom-le : (n k : ℕ) (rs : List Region) → n ≤ k → StartsFrom k rs → StartsFrom n rs
StartsFrom-le n k [] h s = tt
StartsFrom-le n k (r ∷ rs) h s = omega arith

-- Of two regions that do not overlap, the lower one stands first in either order of insertion.
insert_by-swap :
    (r x : Region) (rs : List Region)
    → IsRegion x
    → IsPacked (r ∷ rs)
    → (r.base + r.size ≤ x.base) ⊎ (x.base + x.size ≤ r.base)
    → insert_by base_le r (insert_by base_le x rs) ≡ insert_by base_le x (r ∷ rs)
insert_by-swap r x rs hx p (inl before) =
    insert_by-packed r (insert_by base_le x rs) p.0
      (StartsFrom-insert_by (r.base + r.size) x rs before p.1)
    ∙ ground (arith, p.0)
insert_by-swap r x rs hx p (inr after) =
    ap (insert_by base_le r) (
      insert_by-packed x rs hx
        (StartsFrom-le (x.base + x.size) (r.base + r.size) rs (omega arith) p.1))
    ∙ ground (arith, insert_by-packed r rs p.0 p.1)

-- Sorting a packed list and one more region puts that region in its place.
pub sort_by-packed :
    (rs : List Region) (x : Region)
    → IsRegion x
    → IsPacked rs
    → any (λ r. overlaps r x.base x.size) rs ≡ false
    → sort_by base_le (rs ++ x ∷ []) ≡ insert_by base_le x rs
sort_by-packed [] x hx p h = refl
sort_by-packed (r ∷ rs) x hx p h =
    rw (sort_by-packed rs x hx p.2 (or_right (overlaps r x.base x.size) _ h))
      (insert_by-swap r x rs hx p (apart r x p.0 hx (or_left _ _ h)))

-- Over a map whose regions are sorted, disjoint and below the top of the address space, an insertion
-- of a range that ends below the top leaves such a map, whether it is accepted or refused.
pub insert-IsWellFormed :
    (m : MemoryMap) (base size prot : ℕ)
    → IsWellFormed m
    → base + size < 2 ^ 64
    → IsWellFormed (insert m base size prot).1
unfolding insert
insert-IsWellFormed m base size prot w h = elim (Bool-cases (size == 0)) [
  | inl empty ↦ rw empty w
  | inr filled ↦ elim (Bool-cases (any (λ r. overlaps r base size) m.regions)) [
    | inl taken ↦ rw (filled, taken) w
    | inr free ↦
        rw (filled, free)
          (let x : Region = record { base = base; size = size; prot = prot } in
            let hx : IsRegion x = ground arith in
            rw (sort_by-packed m.regions x hx w free) (insert_by-IsPacked x m.regions hx w free))
  ]
]
