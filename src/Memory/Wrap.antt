-- ===== src/Memory/Wrap.antt =====
-- The overlap test of `insert` adds two `u64`: at the top of the address space the sum wraps.
use win_vpwn.Base.{ℕ, List, [], ◌∷◌, ◌≡◌, refl, ◌+◌, ◌^◌, false, arith, ok, any}
use win_vpwn.Memory.{Region, MemoryMap, overlaps, insert}

overlaps_at_top :
    (rs : List Region) (base size : ℕ)
    → base + size ≡ 2 ^ 64
    → any (λ r. overlaps r base size) rs ≡ false
overlaps_at_top [] base size h = refl
overlaps_at_top (r ∷ rs) base size h = ground (arith, overlaps_at_top rs base size h)

-- A range that ends at the very top of the address space is accepted by every map, whatever
-- the map has claimed.
pub insert_at_top :
    (m : MemoryMap) (base size prot : ℕ)
    → base + size ≡ 2 ^ 64
    → (insert m base size prot).0 ≡ ok tt
unfolding insert
insert_at_top m base size prot h = ground (arith, overlaps_at_top m.regions base size h)
