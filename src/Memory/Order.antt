-- ===== src/Memory/Order.antt =====
-- Several insertions into one map, as the loader and the CPU make them: their order does not matter.
use mathlib.Core.List.{Perm}
use mathlib.Core.List.{Permᴰ}
use mathlib.Core.Logic.{∥∥₁_elim}
use native.Mathlib.Decide.{ℕ_discrete}
use win_vpwn.Base.{
  List, [], ◌∷◌, false, ◌≡◌, refl, sym, ap, ap₂, subst, ◌∙◌, ◌≢◌, ◌+◌, ◌≤◌, ◌<◌, ◌^◌, arith, any,
  any-insert_by, insert_by, ◌==◌, Bool-cases, inl, inr, Outcome, Done, ok, All,
}
use win_vpwn.Base.Exec.{Exec, ◌>>◌, pure, proceed, >>=-ok}
use win_vpwn.Memory.{Region, MemoryMap, MmapError, overlaps, base_le, insert}
use win_vpwn.Memory.Place.{IsRegion, IsWellFormed, insert-IsWellFormed, sort_by-packed}

abbrev pub claim_one : Region → Exec MemoryMap MmapError Done
claim_one r m = insert m r.base r.size r.prot

-- The ranges one after the other, up to the first that is refused.
unfoldable pub claim_all : List Region → Exec MemoryMap MmapError Done
claim_all [] = pure tt
claim_all (r ∷ rs) = claim_one r >> claim_all rs

-- The range ends below the top of the address space.
abbrev pub EndsBelowTop : Region → Type 0
EndsBelowTop r = r.base + r.size < 2 ^ 64

-- Regions with different bases go to their places in either order.
insert_by_comm :
    (x y : Region) (rs : List Region)
    → x.base ≢ y.base
    → insert_by base_le x (insert_by base_le y rs) ≡ insert_by base_le y (insert_by base_le x rs)
insert_by_comm x y [] h = ground arith
insert_by_comm x y (r ∷ rs) h = ground (arith, insert_by_comm x y rs h)

-- A range that meets no region goes to its place in a well-formed map.
pub claim_one-free :
    (r : Region) (m : MemoryMap)
    → IsWellFormed m
    → EndsBelowTop r
    → 1 ≤ r.size
    → any (λ s. overlaps s r.base r.size) m.regions ≡ false
    → claim_one r m ≡ (ok tt, record { regions = insert_by base_le r m.regions })
unfolding insert
claim_one-free r m w fits filled free =
    let placed = sort_by-packed m.regions r (filled, fits) w free in ground (arith, placed)

pub claim_one-ok :
    (r : Region) (m : MemoryMap)
    → 1 ≤ r.size
    → (claim_one r m).0 ≡ ok tt
    → any (λ s. overlaps s r.base r.size) m.regions ≡ false
unfolding insert
claim_one-ok r m filled h = ground arith

claim_one-empty : (r : Region) (m : MemoryMap) → r.size ≡ 0 → claim_one r m ≡ (ok tt, m)
unfolding insert
claim_one-empty r m empty = rw empty refl

-- What meets nothing once `x` is in its place meets neither `x` nor the regions before.
free-insert_by :
    (x y : Region) (rs : List Region)
    → any (λ s. overlaps s y.base y.size) (insert_by base_le x rs) ≡ false
    → (any (λ s. overlaps s y.base y.size) rs ≡ false) × (overlaps x y.base y.size ≡ false)
free-insert_by x y rs h =
    let both = any-insert_by base_le (λ s. overlaps s y.base y.size) x rs in ground (arith, both)

overlaps_comm : (x y : Region) → overlaps x y.base y.size ≡ overlaps y x.base x.size
overlaps_comm x y = ground arith

base-ne :
    (x y : Region) → IsRegion x → IsRegion y → overlaps x y.base y.size ≡ false → x.base ≢ y.base
base-ne x y hx hy h e = ground arith

claim_one-IsWellFormed :
    (r : Region) (m : MemoryMap) → IsWellFormed m → EndsBelowTop r → IsWellFormed (claim_one r m).1
claim_one-IsWellFormed r m w fits = insert-IsWellFormed m r.base r.size r.prot w fits

-- Two accepted claims are accepted in the other order, and leave the same map.
claims_swap :
    (x y : Region) (m : MemoryMap)
    → IsWellFormed m
    → EndsBelowTop x
    → EndsBelowTop y
    → (claim_one x m).0 ≡ ok tt
    → (claim_one y (claim_one x m).1).0 ≡ ok tt
    → ((claim_one y m).0 ≡ ok tt) × (claim_one x (claim_one y m).1 ≡ claim_one y (claim_one x m).1)
claims_swap x y m w fx fy ox oy = elim (Bool-cases (x.size == 0)) [
  | inl empty ↦
      let skip = claim_one-empty x m (ground arith) in
      let skip' = claim_one-empty x (claim_one y m).1 (ground arith) in
      let accepted : (claim_one y m).0 ≡ ok tt = (rw skip at oy) in
      (
        accepted,
        skip'
            ∙ ap (λ r. (r, (claim_one y m).1)) (sym accepted)
            ∙ ap (λ p. claim_one y p.1) (sym skip),
      )
  | inr filled_x ↦ elim (Bool-cases (y.size == 0)) [
    | inl empty ↦
        let skip = claim_one-empty y m (ground arith) in
        let skip' = claim_one-empty y (claim_one x m).1 (ground arith) in
        (
          ap (λ p. p.0) skip,
          ap (λ p. claim_one x p.1) skip ∙ ap (λ r. (r, (claim_one x m).1)) ox ∙ sym skip',
        )
    | inr filled_y ↦
        let px : 1 ≤ x.size = ground arith in
        let py : 1 ≤ y.size = ground arith in
        let free_x = claim_one-ok x m px ox in
        let at_x = claim_one-free x m w fx px free_x in
        let (free_y, apart) = free-insert_by x y m.regions (claim_one-ok y _ py (rw at_x at oy)) in
        let at_y = claim_one-free y m w fy py free_y in
        let wx = claim_one-IsWellFormed x m w fx in
        let wy = claim_one-IsWellFormed y m w fy in
        let then_y = claim_one-free y (claim_one x m).1 wx fy py (claim_one-ok y _ py oy) in
        let then_x = claim_one-free x (claim_one y m).1 wy fx px (
          rw at_y (
            any-insert_by base_le (λ s. overlaps s x.base x.size) y m.regions
            ∙ ground (arith, free_x, apart, overlaps_comm x y))) in
        (
          ap (λ p. p.0) at_y,
          then_x
              ∙ ap (λ rs. (ok tt, record { regions = rs }))
                  (ap (λ p. insert_by base_le x p.1.regions) at_y
                    ∙ insert_by_comm x y m.regions (base-ne x y (px, fx) (py, fy) apart)
                    ∙ ap (λ p. insert_by base_le y p.1.regions) (sym at_x))
              ∙ sym then_y,
        )
  ]
]

claim_all-first :
    (r : Region) (rs : List Region) (m : MemoryMap)
    → (claim_all (r ∷ rs) m).0 ≡ ok tt
    → ((claim_one r m).0 ≡ ok tt) × (claim_all (r ∷ rs) m ≡ claim_all rs (claim_one r m).1)
unfolding claim_all
claim_all-first r rs m h =
    let (done, e, rest) = >>=-ok (claim_one r) (λ _. claim_all rs) m tt h in (e, rest)

claim_all-next :
    (r : Region) (rs : List Region) (m : MemoryMap)
    → (claim_one r m).0 ≡ ok tt
    → claim_all (r ∷ rs) m ≡ claim_all rs (claim_one r m).1
unfolding claim_all
claim_all-next r rs m e = ap (λ result. proceed result (claim_one r m).1 (λ _. claim_all rs)) e

result_set : IsSet (Outcome MmapError Done × MemoryMap)
result_set = hlevel ℕ_discrete

All-permᴰ : {rs rs' : List Region} → Permᴰ rs rs' → All EndsBelowTop rs → All EndsBelowTop rs'
All-permᴰ Permᴰ.nil low = low
All-permᴰ (Permᴰ.cons e d) low = (subst EndsBelowTop e low.0, All-permᴰ d low.1)
All-permᴰ (Permᴰ.swap e e') low =
    (subst EndsBelowTop e' low.1.0, (subst EndsBelowTop e low.0, low.1.1))
All-permᴰ (Permᴰ.trans d d') low = All-permᴰ d' (All-permᴰ d low)

claim_all-permᴰ :
    {rs rs' : List Region}
    → Permᴰ rs rs'
    → (m : MemoryMap) → IsWellFormed m
    → All EndsBelowTop rs
    → (claim_all rs m).0 ≡ ok tt
    → claim_all rs' m ≡ claim_all rs m
claim_all-permᴰ Permᴰ.nil m w low h = refl
claim_all-permᴰ (Permᴰ.cons {a} {b} {l₁} {l₂} e d) m w low h =
    let (first, rest) = claim_all-first a l₁ m h in
    let later =
      claim_all-permᴰ d (claim_one a m).1 (claim_one-IsWellFormed a m w low.0) low.1
        (sym (ap (λ p. p.0) rest) ∙ h) in
    ap (λ r. claim_all (r ∷ l₂) m) (sym e) ∙ claim_all-next a l₂ m first ∙ later ∙ sym rest
claim_all-permᴰ (Permᴰ.swap {a} {b} {a'} {b'} {l} e e') m w low h =
    let (first, rest) = claim_all-first a (b ∷ l) m h in
    let (second, rest') = claim_all-first b l (claim_one a m).1 (sym (ap (λ p. p.0) rest) ∙ h) in
    let (swapped, same) = claims_swap a b m w low.0 low.1.0 first second in
    ap₂ (λ r s. claim_all (r ∷ s ∷ l) m) (sym e') (sym e)
    ∙ claim_all-next b (a ∷ l) m swapped
    ∙ claim_all-next a l (claim_one b m).1 (ap (λ p. p.0) same ∙ second)
    ∙ ap (λ p. claim_all l p.1) same
    ∙ sym rest'
    ∙ sym rest
claim_all-permᴰ (Permᴰ.trans d d') m w low h =
    let near = claim_all-permᴰ d m w low h in
    claim_all-permᴰ d' m w (All-permᴰ d low) (ap (λ p. p.0) near ∙ h) ∙ near

-- Ranges that end below the top of the address space and that a well-formed map accepts one after
-- the other are accepted in every other order, and the map that they leave is the same.
pub claim_all-perm :
    (rs rs' : List Region) (m : MemoryMap)
    → Perm rs rs'
    → IsWellFormed m
    → All EndsBelowTop rs
    → (claim_all rs m).0 ≡ ok tt
    → claim_all rs' m ≡ claim_all rs m
claim_all-perm rs rs' m p w low h =
    ∥∥₁_elim p (result_set (claim_all rs' m) (claim_all rs m)) (λ d. claim_all-permᴰ d m w low h)
