-- ===== src/Memory/Slots.antt =====
-- Where `insert` puts a range, described by the regions before and after it.
use win_vpwn.Base.{
  ℕ, List, [], ◌∷◌, ◌++◌, false, ◌≡◌, ◌↔◌, refl, sym, ap, subst, ◌∙◌, ◌+◌, ◌≤◌, ◌<◌, ◌^◌, arith,
  any, insert_by, leb, Bool-cases, inl, inr, All, ok, or_left, or_right,
}
use win_vpwn.Memory.{Region, MemoryMap, overlaps, base_le, insert}
use win_vpwn.Memory.Place.{IsRegion, IsPacked, StartsFrom, IsWellFormed, apart}
use win_vpwn.Memory.Order.{claim_one-free, claim_one-ok}

abbrev EndsBy : ℕ → Region → Type 0
EndsBy n r = r.base + r.size ≤ n

abbrev BeginsFrom : ℕ → Region → Type 0
BeginsFrom n r = n ≤ r.base

-- The list is cut where the region fits between its neighbours, and the new list has it there.
abbrev pub FitsIn : Region → List Region → List Region → Type 0
FitsIn x rs rs' =
    (below : List Region) × (above : List Region) × (rs ≡ below ++ above)
    × All (EndsBy x.base) below
    × All (BeginsFrom (x.base + x.size)) above
    × (rs' ≡ below ++ x ∷ above)

packed_above : (n : ℕ) (rs : List Region) → StartsFrom n rs → IsPacked rs → All (BeginsFrom n) rs
packed_above n [] s p = tt
packed_above n (r ∷ rs) s p = (s, packed_above n rs (later rs p.1) p.2)
  where
    later : (qs : List Region) → StartsFrom (r.base + r.size) qs → StartsFrom n qs
    later [] t = tt
    later (q ∷ qs) t = omega arith

free-FitsIn :
    (x : Region) (rs : List Region)
    → IsRegion x
    → IsPacked rs
    → any (λ r. overlaps r x.base x.size) rs ≡ false
    → FitsIn x rs (insert_by base_le x rs)
free-FitsIn x [] hx p h = ([], [], refl, tt, tt, refl)
free-FitsIn x (r ∷ rs) hx p h = elim (Bool-cases (leb x.base r.base)) [
  | inl le ↦ elim (apart r x p.0 hx (or_left _ _ h)) [
    | inl before ↦ absurd (ground arith)
    | inr after ↦
        ([], r ∷ rs, refl, tt, packed_above (x.base + x.size) (r ∷ rs) after p, rw le refl)
  ]
  | inr gt ↦ elim (apart r x p.0 hx (or_left _ _ h)) [
    | inr after ↦ absurd (ground arith)
    | inl before ↦
        let (below, above, cut, lows, highs, placed) =
          free-FitsIn x rs hx p.2 (or_right (overlaps r x.base x.size) _ h) in
        (
          r ∷ below,
          above,
          ap (λ qs. r ∷ qs) cut,
          (before, lows),
          highs,
          rw gt (ap (λ qs. r ∷ qs) placed),
        )
  ]
]

above_free :
    (x : Region) (above : List Region)
    → IsRegion x
    → All (BeginsFrom (x.base + x.size)) above
    → any (λ r. overlaps r x.base x.size) above ≡ false
above_free x [] hx highs = refl
above_free x (r ∷ rs) hx highs = ground (arith, above_free x rs hx highs.1)

above_placed :
    (x : Region) (above : List Region)
    → All (BeginsFrom (x.base + x.size)) above
    → insert_by base_le x above ≡ x ∷ above
above_placed x [] highs = refl
above_placed x (r ∷ rs) highs = ground (arith, highs.0)

cut_free :
    (x : Region) (below above : List Region)
    → IsRegion x
    → IsPacked (below ++ above)
    → All (EndsBy x.base) below
    → All (BeginsFrom (x.base + x.size)) above
    → any (λ r. overlaps r x.base x.size) (below ++ above) ≡ false
cut_free x [] above hx p lows highs = above_free x above hx highs
cut_free x (r ∷ below) above hx p lows highs =
    ground (arith, p.0, lows.0, cut_free x below above hx p.2 lows.1 highs)

cut_placed :
    (x : Region) (below above : List Region)
    → IsPacked (below ++ above)
    → All (EndsBy x.base) below
    → All (BeginsFrom (x.base + x.size)) above
    → insert_by base_le x (below ++ above) ≡ below ++ x ∷ above
cut_placed x [] above p lows highs = above_placed x above highs
cut_placed x (r ∷ below) above p lows highs =
    ground (arith, p.0, lows.0, cut_placed x below above p.2 lows.1 highs)

-- Into a map whose regions are sorted, disjoint and below the top of the address space, a range
-- that is not empty and ends below the top is inserted exactly if the regions can be cut in two,
-- those that end before the range and those that begin after it; the new map has the range
-- between the two parts, and the other regions as they were.
pub insert-FitsIn_iff :
    (m m' : MemoryMap) (base size prot : ℕ)
    → IsWellFormed m
    → base + size < 2 ^ 64
    → 1 ≤ size
    → (insert m base size prot ≡ (ok tt, m'))
      ↔ FitsIn (record { base = base; size = size; prot = prot }) m.regions m'.regions
insert-FitsIn_iff m m' base size prot w fits filled =
    let x : Region = record { base = base; size = size; prot = prot } in
    (
      λ done.
          let free = claim_one-ok x m filled (ap (λ t. t.0) done) in
          let there = claim_one-free x m w fits filled free in
          let same : record { regions = insert_by base_le x m.regions } ≡ m' =
            ap (λ t. t.1) (sym there ∙ done) in
          subst (λ (n : MemoryMap). FitsIn x m.regions n.regions) same
            (free-FitsIn x m.regions (filled, fits) w free),
      λ (below, above, cut, lows, highs, placed).
          let p = subst IsPacked cut w in
          let free =
            ap (any (λ r. overlaps r base size)) cut
            ∙ cut_free x below above (filled, fits) p lows highs in
          let put = ap (insert_by base_le x) cut ∙ cut_placed x below above p lows highs in
          claim_one-free x m w fits filled free
          ∙ ap (λ rs. (ok tt, record { regions = rs })) (put ∙ sym placed),
    )
