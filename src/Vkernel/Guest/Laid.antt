-- ===== src/Vkernel/Guest/Laid.antt =====
-- Guest memory as a partial function from addresses to bytes, and the layouts in which no region
-- covers another.
use win_vpwn.Base.{
  ℕ, ◌+◌, ◌-◌, ◌^◌, ◌≤◌, ◌<◌, max, List, [], ◌∷◌, Option, none, some, ◌≡◌, refl, arith, length,
  get_elem?, Option-cases, ap, inl, inr,
}
use win_vpwn.Base.BTree
use win_vpwn.Base.BTree.{BTreeMap, u64_key}
use win_vpwn.Vkernel.Guest.{InMemGuest, region}

abbrev pub Regions : Type 0
Regions = BTreeMap ℕ (List ℕ)

-- The first region of the list, if any, begins at `n` or later.
abbrev pub BeginsFrom : ℕ → Regions → Type 0
BeginsFrom n [] = Unit
BeginsFrom n ((base, bytes) ∷ m) = n ≤ base

-- Each region ends inside the address space, and before the next one begins.
abbrev pub IsLaidFrom : Regions → Type 0
IsLaidFrom [] = Unit
IsLaidFrom ((base, bytes) ∷ m) =
    (base + length bytes ≤ 2 ^ 64) × BeginsFrom (base + max 1 (length bytes)) m × IsLaidFrom m

abbrev pub IsLaid : InMemGuest → Type 0
IsLaid m = IsLaidFrom m.bytes

abbrev pub byte_in : ℕ → Option (ℕ × List ℕ) → Option ℕ
byte_in a none = none
byte_in a (some (base, bytes)) = get_elem? bytes (a - base)

-- The byte at an address.
unfoldable pub peek : InMemGuest → ℕ → Option ℕ
peek m a = byte_in a (region m a)

last_le-none : (n a : ℕ) (m : Regions) → BeginsFrom n m → a < n → BTree.last_le m a ≡ none
last_le-none n a [] s h = refl
last_le-none n a ((base, bytes) ∷ m) s h = ground arith

-- What the lookup finds begins at or below the address, and ends inside the address space.
pub last_le_bounds :
    (m : Regions) (a base : ℕ) (bytes : List ℕ)
    → IsLaidFrom m
    → BTree.last_le m a ≡ some (base, bytes)
    → (base ≤ a) × (base + length bytes ≤ 2 ^ 64)
last_le_bounds [] a base bytes l e = cc
last_le_bounds ((j, v) ∷ m) a base bytes l e = elim (Option-cases (BTree.last_le m a)) [
  | inl last ↦ ground (arith, last)
  | inr (found, later) ↦ last_le_bounds m a base bytes l.2 (ground (arith, later))
]

-- The region found for an address is found for each later address that it reaches.
pub last_le_same :
    (m : Regions) (a c base : ℕ) (bytes : List ℕ)
    → IsLaidFrom m
    → BTree.last_le m a ≡ some (base, bytes)
    → a ≤ c
    → c < base + length bytes
    → BTree.last_le m c ≡ some (base, bytes)
last_le_same [] a c base bytes l e h k = e
last_le_same ((j, v) ∷ m) a c base bytes l e h k = elim (Option-cases (BTree.last_le m a)) [
  | inl last ↦
      let found = found_here last in
      let next_none = last_le-none (j + max 1 (length v)) c m l.1 (past found) in
      ground (arith, found, next_none)
  | inr (found, later) ↦
      ground (arith, later, last_le_same m a c base bytes l.2 (found_later later) h k)
]
  where
    found_here : BTree.last_le m a ≡ none → (j ≤ a) × (j ≡ base) × (v ≡ bytes)
    found_here last = ground arith

    found_later :
        {found : ℕ × List ℕ}
        → BTree.last_le m a ≡ some found
        → BTree.last_le m a ≡ some (base, bytes)
    found_later later = ground arith

    past : (j ≤ a) × (j ≡ base) × (v ≡ bytes) → c < j + max 1 (length v)
    past f = omega (arith, ap length f.2)

-- The same of `region`.
pub region_same :
    (m : InMemGuest) (a c base : ℕ) (bytes : List ℕ)
    → IsLaid m
    → region m a ≡ some (base, bytes)
    → a ≤ c
    → c < base + length bytes
    → region m c ≡ some (base, bytes)
unfolding region
region_same m a c base bytes l e h k =
    let found : BTree.last_le m.bytes a ≡ some (base, bytes) = ground arith in
    let bounds = last_le_bounds m.bytes a base bytes l found in
    rw (last_le_same m.bytes a c base bytes l found h k) (ground (arith, bounds))

pub region_bounds :
    (m : InMemGuest) (a base : ℕ) (bytes : List ℕ)
    → IsLaid m
    → region m a ≡ some (base, bytes)
    → (base ≤ a) × (a < base + length bytes) × (base + length bytes ≤ 2 ^ 64)
unfolding region
region_bounds m a base bytes l e =
    let found : BTree.last_le m.bytes a ≡ some (base, bytes) = ground arith in
    let bounds = last_le_bounds m.bytes a base bytes l found in ground (arith, bounds)
