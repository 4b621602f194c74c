-- ===== src/Memory/Claims.antt =====
-- Which addresses a map claims, before and after `insert`.
use mathlib.Core.Bool.{or-false, or-true}
use win_vpwn.Base.{
  ℕ, List, [], ◌∷◌, Bool, false, true, ◌≡◌, ◌+◌, ◌≤◌, ◌<◌, ◌^◌, arith, ok, any, any-append,
  any-sort_by, leb, ltb, ◌&&◌, ◌||◌, ◌==◌, ◌↔◌, Bool-cases, inl, inr, ◌≢◌, max, ap, ◌∙◌, ◌++◌,
}
use win_vpwn.Memory.{Region, MemoryMap, contains, overlaps, base_le, insert}
use win_vpwn.Memory.Place.{IsWellFormed, IsPacked, IsRegion}

-- Some region of the map contains the address.
abbrev pub claimed : MemoryMap → ℕ → Bool
claimed m a = any (λ r. contains r a) m.regions

abbrev pub in_range : ℕ → ℕ → ℕ → Bool
in_range base size a = leb base a && ltb a (base + size)

contains-in_range :
    (base size prot a : ℕ)
    → base + size < 2 ^ 64
    → contains (record { base = base; size = size; prot = prot }) a ≡ in_range base size a
contains-in_range base size prot a h = ground arith

-- A successful insertion of a range that ends below the top of the address space claims the
-- addresses of the range, and no others beside the old ones.
pub claimed-insert :
    (m : MemoryMap) (base size prot a : ℕ)
    → base + size < 2 ^ 64
    → (insert m base size prot).0 ≡ ok tt
    → claimed (insert m base size prot).1 a ≡ (claimed m a || in_range base size a)
unfolding insert
claimed-insert m base size prot a h e = elim (Bool-cases (size == 0)) [
  | inl empty ↦ rw empty (ground arith)
  | inr filled ↦ elim (Bool-cases (any (λ r. overlaps r base size) m.regions)) [
    | inl taken ↦ absurd (ground arith)
    | inr free ↦
        rw (filled, free)
          (any-sort_by base_le (λ r. contains r a) (m.regions ++ region ∷ [])
            ∙ any-append (λ r. contains r a) m.regions (region ∷ [])
            ∙ ap (λ b. claimed m a || b) (or-false _ ∙ contains-in_range base size prot a h))
  ]
]
  where
    region : Region
    region = record { base = base; size = size; prot = prot }

-- The higher of the two bases lies in both ranges.
overlaps_address :
    (r : Region) (base size : ℕ)
    → IsRegion r
    → base + size < 2 ^ 64
    → 1 ≤ size
    → overlaps r base size ≡ true
    → (contains r (max r.base base) ≡ true) × (in_range base size (max r.base base) ≡ true)
overlaps_address r base size hr h p o = ground arith

any-overlaps_address :
    (rs : List Region) (base size : ℕ)
    → IsPacked rs
    → base + size < 2 ^ 64
    → 1 ≤ size
    → any (λ r. overlaps r base size) rs ≡ true
    → (a : ℕ) × (any (λ r. contains r a) rs ≡ true) × (in_range base size a ≡ true)
any-overlaps_address [] base size w h p o = cc
any-overlaps_address (r ∷ rs) base size w h p o = elim (Bool-cases (overlaps r base size)) [
  | inl here ↦ let (c, i) = overlaps_address r base size w.0 h p here in (max r.base base, rw c, i)
  | inr no_overlap ↦
      let (a, c, i) = any-overlaps_address rs base size w.2 h p (rw no_overlap at o) in
      (a, rw (c, or-true), i)
]

-- In a well-formed map the insertion of a range that ends below the top of the address space, when
-- it is refused, meets a claimed address and changes nothing.
pub insert-refused :
    (m : MemoryMap) (base size prot : ℕ)
    → IsWellFormed m
    → base + size < 2 ^ 64
    → (insert m base size prot).0 ≢ ok tt
    → ((insert m base size prot).1 ≡ m)
      × ((a : ℕ) × (claimed m a ≡ true) × (in_range base size a ≡ true))
unfolding insert
insert-refused m base size prot w h e = elim (Bool-cases (size == 0)) [
  | inl empty ↦ absurd (e (rw empty))
  | inr filled ↦ elim (Bool-cases (any (λ r. overlaps r base size) m.regions)) [
    | inl taken ↦
        (rw (filled, taken), any-overlaps_address m.regions base size w h (ground arith) taken)
    | inr free ↦ absurd (e (rw (filled, free)))
  ]
]

address-overlaps :
    (rs : List Region) (base size a : ℕ)
    → IsPacked rs
    → base + size < 2 ^ 64
    → in_range base size a ≡ true
    → any (λ r. contains r a) rs ≡ true
    → any (λ r. overlaps r base size) rs ≡ true
address-overlaps [] base size a w h i c = c
address-overlaps (r ∷ rs) base size a w h i c = elim (Bool-cases (contains r a)) [
  | inl here ↦ rw (overlap_at here)
  | inr elsewhere ↦ rw (address-overlaps rs base size a w.2 h i (rw elsewhere at c), or-true)
]
  where
    overlap_at : contains r a ≡ true → overlaps r base size ≡ true
    overlap_at here = ground (arith, w.0)

pub insert-free_iff :
    (m : MemoryMap) (base size prot : ℕ)
    → IsWellFormed m
    → base + size < 2 ^ 64
    → 1 ≤ size
    → ((insert m base size prot).0 ≡ ok tt)
      ↔ ((a : ℕ) → in_range base size a ≡ true → claimed m a ≡ false)
unfolding insert
insert-free_iff m base size prot w h p =
    elim (Bool-cases (any (λ r. overlaps r base size) m.regions)) [
      | inl taken ↦ (
        λ e. absurd (ground arith),
        λ free.
            let (a, c, i) = any-overlaps_address m.regions base size w h p taken in cc (free a i),
      )
      | inr free ↦ (
        λ e a i. elim (Bool-cases (claimed m a)) [
          | inl c ↦ cc (address-overlaps m.regions base size a w h i c)
          | inr c ↦ c
        ],
        λ all. ground arith,
      )
    ]

-- In a well-formed map a range that is not empty and does not pass the end of the address space
-- is accepted exactly when no address of it is claimed.
pub insert-ok_iff :
    (m : MemoryMap) (base size prot : ℕ)
    → IsWellFormed m
    → base + size < 2 ^ 64
    → 1 ≤ size
    → ((insert m base size prot).0 ≡ ok tt)
      ↔ ((a : ℕ) → (in_range base size a && claimed m a) ≡ false)
insert-ok_iff m base size prot w h p =
    let (free, placed) = insert-free_iff m base size prot w h p in
    (
      λ e a. elim (Bool-cases (in_range base size a)) [
        | inl i ↦ let c = free e a i in ground (arith, i, c)
        | inr i ↦ ground (arith, i)
      ],
      λ apart. placed (λ a i. let c = apart a in ground (arith, i, c)),
    )
