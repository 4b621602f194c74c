-- ===== src/Vkernel/Guest/Pokes.antt =====
-- Guest memory as a function from addresses to bytes, and a write to it byte by byte.
use win_vpwn.Base.{
  ℕ, suc, zero, ◌+◌, ◌-◌, ◌≤◌, ◌<◌, ◌^◌, List, [], ◌∷◌, ◌++◌, ◌&&◌, Option, none, some,
  Option-cases, ◌≡◌, refl, sym, ap, ap₂, ◌∙◌, arith, length, get_elem?, leb, ltb, ◌==◌,
  if◌then◌else◌, Done, Outcome, ok, error, add_u64, sub_u64, inl, inr,
}
use win_vpwn.Vkernel.Guest.{GuestMemError}

-- The byte at each mapped address.
abbrev pub Bytes : Type 0
Bytes = ℕ → Option ℕ

abbrev pub poke : Bytes → ℕ → ℕ → Bytes
poke f addr b a = if a == addr then some b else f a

-- One byte after the other from `addr`, at wrapping addresses, up to the first address that is not
-- mapped. The error names it, and how many bytes were still to come.
unfoldable pub pokes : Bytes → ℕ → List ℕ → Outcome GuestMemError Done × Bytes
pokes f addr [] = (ok tt, f)
pokes f addr (b ∷ bs) = elim (f addr) [
  | none ↦ (error (record { addr = addr; len = suc (length bs) }), f)
  | some old ↦ pokes (poke f addr b) (add_u64 addr 1) bs
]

-- The bytes of a chunk that stands at `addr`, and the old ones around it.
abbrev pub patch : Bytes → ℕ → List ℕ → Bytes
patch f addr chunk a =
    if leb addr a && ltb a (addr + length chunk) then get_elem? chunk (a - addr) else f a

pokes_mapped :
    (f : Bytes) (addr b old : ℕ) (bs : List ℕ)
    → f addr ≡ some old
    → pokes f addr (b ∷ bs) ≡ pokes (poke f addr b) (add_u64 addr 1) bs
unfolding pokes
pokes_mapped f addr b old bs e = rw (e, pokes) refl

pub pokes_unmapped :
    (f : Bytes) (addr : ℕ) (b : ℕ) (bs : List ℕ)
    → f addr ≡ none
    → pokes f addr (b ∷ bs) ≡ (error (record { addr = addr; len = suc (length bs) }), f)
unfolding pokes
pokes_unmapped f addr b bs e = rw (e, pokes) refl

patch-nil : (f : Bytes) (addr : ℕ) → patch f addr [] ≡ f
patch-nil f addr = λ i a. at a i
  where
    at : (a : ℕ) → patch f addr [] a ≡ f a
    at a = ground arith

get_elem?-later :
    (b : ℕ) (bs : List ℕ) (a addr : ℕ)
    → addr < a
    → get_elem? (b ∷ bs) (a - addr) ≡ get_elem? bs (a - suc addr)
get_elem?-later b bs a addr h =
    let next : a - addr ≡ suc (a - suc addr) = omega (arith, h) in ap (get_elem? (b ∷ bs)) next

get_elem?-first : (b : ℕ) (bs : List ℕ) (a : ℕ) → get_elem? (b ∷ bs) (a - a) ≡ some b
get_elem?-first b bs a =
    let none_before : a - a ≡ 0 = omega arith in ap (get_elem? (b ∷ bs)) none_before

patch-poke :
    (f : Bytes) (addr b : ℕ) (bs : List ℕ)
    → patch (poke f addr b) (suc addr) bs ≡ patch f addr (b ∷ bs)
patch-poke f addr b bs = λ i a. at a i
  where
    at : (a : ℕ) → patch (poke f addr b) (suc addr) bs a ≡ patch f addr (b ∷ bs) a
    at a = ground (arith, get_elem?-later b bs a addr, get_elem?-first b bs a)

-- Every address of the chunk is mapped.
abbrev pub IsMapped : Bytes → ℕ → ℕ → Type 0
IsMapped f addr n = (a : ℕ) → addr ≤ a → a < addr + n → (b : ℕ) × (f a ≡ some b)

IsMapped-poke :
    (f : Bytes) (addr n b : ℕ) → IsMapped f addr (suc n) → IsMapped (poke f addr b) (suc addr) n
IsMapped-poke f addr n b mapped a from below =
    let (old, e) = mapped a (omega (arith, from)) (omega (arith, below)) in
    (old, ground (arith, e, from))

-- A chunk that is mapped and does not pass the end of the address space is written as a whole.
pub pokes-patch :
    (f : Bytes) (addr : ℕ) (chunk rest : List ℕ)
    → IsMapped f addr (length chunk)
    → addr + length chunk ≤ 2 ^ 64
    → addr < 2 ^ 64
    → pokes f addr (chunk ++ rest) ≡ pokes (patch f addr chunk) (add_u64 addr (length chunk)) rest
pokes-patch f addr [] rest mapped fits small =
    let same : addr ≡ add_u64 addr 0 = omega (arith, small) in
    ap₂ (λ g j. pokes g j rest) (sym (patch-nil f addr)) same
pokes-patch f addr (b ∷ []) rest mapped fits small =
    let (old, e) = mapped addr (omega arith) (omega arith) in
    pokes_mapped f addr b old rest e
    ∙ ap (λ g. pokes g (add_u64 addr 1) rest)
        (sym (patch-nil (poke f addr b) (suc addr)) ∙ patch-poke f addr b [])
pokes-patch f addr (b ∷ c ∷ chunk) rest mapped fits small =
    let (old, e) = mapped addr (omega arith) (omega arith) in
    let step : add_u64 addr 1 ≡ suc addr = omega (arith, fits) in
    let stop : add_u64 (suc addr) (suc (length chunk)) ≡ add_u64 addr (suc (suc (length chunk))) =
      omega (arith, fits) in
    pokes_mapped f addr b old (c ∷ chunk ++ rest) e
    ∙ ap (λ j. pokes (poke f addr b) j (c ∷ chunk ++ rest)) step
    ∙ pokes-patch (poke f addr b) (suc addr) (c ∷ chunk) rest
        (IsMapped-poke f addr (suc (length chunk)) b mapped) (omega (arith, fits))
        (omega (arith, fits))
    ∙ ap₂ (λ g j. pokes g j rest) (patch-poke f addr b (c ∷ chunk)) stop

-- A write leaves the bytes after it as they were, whether it succeeds or not.
pub pokes-after :
    (f : Bytes) (addr : ℕ) (bytes : List ℕ) (a : ℕ)
    → addr < 2 ^ 64
    → a < 2 ^ 64
    → length bytes ≤ sub_u64 a addr
    → (pokes f addr bytes).1 a ≡ f a
unfolding pokes
pokes-after f addr [] a small here far = refl
pokes-after f addr (b ∷ bs) a small here far = elim (Option-cases (f addr)) [
  | inl unmapped ↦ rw (pokes_unmapped f addr b bs unmapped) refl
  | inr (old, e) ↦
      let further : length bs ≤ sub_u64 a (add_u64 addr 1) = omega (arith, far, here, small) in
      let rest = pokes-after (poke f addr b) (add_u64 addr 1) bs a (omega arith) here further in
      rw (pokes_mapped f addr b old bs e) (rest ∙ ground (arith, far, here))
]

pokes_done :
    (f : Bytes) (addr b : ℕ) (bs : List ℕ)
    → (pokes f addr (b ∷ bs)).0 ≡ ok tt
    → pokes f addr (b ∷ bs) ≡ pokes (poke f addr b) (add_u64 addr 1) bs
pokes_done f addr b bs done = elim (Option-cases (f addr)) [
  | inl unmapped ↦ cc (rw (pokes_unmapped f addr b bs unmapped) at done)
  | inr (old, e) ↦ pokes_mapped f addr b old bs e
]

-- What a write that succeeds leaves at each of its addresses.
pub pokes-inside :
    (f : Bytes) (addr : ℕ) (bytes : List ℕ) (i : ℕ)
    → addr < 2 ^ 64
    → length bytes ≤ 2 ^ 64
    → i < length bytes
    → (pokes f addr bytes).0 ≡ ok tt
    → (pokes f addr bytes).1 (add_u64 addr i) ≡ get_elem? bytes i
pokes-inside f addr [] i small short inside done = absurd (omega (arith, inside))
pokes-inside f addr (b ∷ bs) zero small short inside done =
    let step = pokes_done f addr b bs done in
    let same : add_u64 addr 0 ≡ addr = omega (arith, small) in
    rw (step, same)
      (pokes-after (poke f addr b) (add_u64 addr 1) bs addr (omega arith) small
          (omega (arith, small, short))
        ∙ ground arith)
pokes-inside f addr (b ∷ bs) (suc i) small short inside done =
    let step = pokes_done f addr b bs done in
    let same : add_u64 addr (suc i) ≡ add_u64 (add_u64 addr 1) i = omega (arith, small) in
    rw (step, same)
      (pokes-inside (poke f addr b) (add_u64 addr 1) bs i (omega arith) (omega (arith, short))
        (omega (arith, inside)) (rw step at done))
