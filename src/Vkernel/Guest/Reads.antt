-- ===== src/Vkernel/Guest/Reads.antt =====
-- `InMemGuest::read`, which goes by chunks of regions, against the reading of one byte after the
-- other.
use win_vpwn.Base.{
  ap₂, ℕ, zero, suc, ◌+◌, ◌-◌, ◌≤◌, ◌<◌, min, List, [], ◌∷◌, ◌++◌, none, some, ◌≡◌, refl, ap, ◌∙◌,
  sym, arith, length, take, drop, get_elem?, take-drop-suc, get_elem?-lt, Outcome, ok, error, panic,
  add_u64, Option-cases, inl, inr, ltb, isize_max, if◌then◌else◌, append-nil, append_assoc,
}
use win_vpwn.Vkernel.Guest.{InMemGuest, GuestMemError, region, read_loop, read}
use win_vpwn.Vkernel.Guest.Laid.{IsLaid, peek, region_same, region_bounds}

abbrev pub prepend : List ℕ → Outcome GuestMemError (List ℕ) → Outcome GuestMemError (List ℕ)
prepend out (ok bytes) = ok (out ++ bytes)
prepend out (error e) = error e
prepend out panic = panic

-- One byte after the other from `addr`, at wrapping addresses. The error names the first byte that
-- is not mapped and how many were still to come.
unfoldable pub peeks : InMemGuest → ℕ → ℕ → Outcome GuestMemError (List ℕ)
peeks m addr zero = ok []
peeks m addr (suc n) = elim (peek m addr) [
  | none ↦ error (record { addr = addr; len = suc n })
  | some b ↦ prepend (b ∷ []) (peeks m (add_u64 addr 1) n)
]

prepend-prepend :
    (xs ys : List ℕ) (r : Outcome GuestMemError (List ℕ))
    → prepend xs (prepend ys r) ≡ prepend (xs ++ ys) r
prepend-prepend xs ys (ok bytes) = ap ok (sym (append_assoc xs ys bytes))
prepend-prepend xs ys (error e) = refl
prepend-prepend xs ys panic = refl

prepend-nil : (r : Outcome GuestMemError (List ℕ)) → prepend [] r ≡ r
prepend-nil (ok bytes) = refl
prepend-nil (error e) = refl
prepend-nil panic = refl

pub peeks_found :
    (m : InMemGuest) (addr n b : ℕ)
    → peek m addr ≡ some b
    → peeks m addr (suc n) ≡ prepend (b ∷ []) (peeks m (add_u64 addr 1) n)
unfolding peeks
peeks_found m addr n b e = rw (e, peeks)

pub peek-region :
    (m : InMemGuest) (addr base : ℕ) (bytes : List ℕ)
    → region m addr ≡ some (base, bytes)
    → peek m addr ≡ get_elem? bytes (addr - base)
unfolding peek
peek-region m addr base bytes e = rw (e, peek)

-- The first byte of a chunk.
chunk_head :
    (m : InMemGuest) (base : ℕ) (bytes : List ℕ) (t n addr : ℕ)
    → region m addr ≡ some (base, bytes)
    → addr - base < length bytes
    → (b : ℕ) × (peeks m addr (suc n) ≡ prepend (b ∷ []) (peeks m (add_u64 addr 1) n))
      × (take (suc t) (drop (addr - base) bytes) ≡ b ∷ take t (drop (suc (addr - base)) bytes))
chunk_head m base bytes t n addr e h =
    let (b, found) = get_elem?-lt bytes (addr - base) h in
    (
      b,
      peeks_found m addr n b (peek-region m addr base bytes e ∙ found),
      take-drop-suc t (addr - base) bytes b found,
    )

-- A chunk inside one region is read as its bytes, one by one.
peeks_chunk :
    (m : InMemGuest) (base : ℕ) (bytes : List ℕ) (t n k addr : ℕ)
    → IsLaid m
    → region m addr ≡ some (base, bytes)
    → addr + t ≤ base + length bytes
    → t + n ≡ k
    → peeks m addr k ≡ prepend (take t (drop (addr - base) bytes)) (peeks m (add_u64 addr t) n)
peeks_chunk m base bytes zero n k addr l e h s =
    let bounds = region_bounds m addr base bytes l e in
    ap₂ (peeks m) (omega (arith, bounds)) (omega arith) ∙ sym (prepend-nil _)
peeks_chunk m base bytes (suc t) n zero addr l e h s = absurd (omega arith)
peeks_chunk m base bytes (suc zero) n (suc k) addr l e h s =
    let bounds = region_bounds m addr base bytes l e in
    let (b, head, slice) = chunk_head m base bytes zero k addr e (omega (arith, bounds)) in
    rw slice (head ∙ ap (λ j. prepend (b ∷ []) (peeks m (add_u64 addr 1) j)) (omega arith))
peeks_chunk m base bytes (suc (suc t)) n (suc k) addr l e h s =
    let bounds = region_bounds m addr base bytes l e in
    let (b, head, slice) = chunk_head m base bytes (suc t) k addr e (omega (arith, bounds)) in
    let next = region_same m addr (addr + 1) base bytes l e (omega arith) (omega arith) in
    let rest = peeks_chunk m base bytes (suc t) n k (addr + 1) l next (omega arith) (omega arith) in
    let offset : addr + 1 - base ≡ suc (addr - base) = omega (arith, bounds) in
    let stop : add_u64 (addr + 1) (suc t) ≡ add_u64 addr (suc (suc t)) = omega arith in
    let here : add_u64 addr 1 ≡ addr + 1 = omega (arith, bounds) in
    rw slice (
      head
      ∙ ap (prepend (b ∷ [])) (ap (λ j. peeks m j k) here ∙ rest)
      ∙ prepend-prepend (b ∷ []) _ _
      ∙ ap₂ (λ o j. prepend (b ∷ take (suc t) (drop o bytes)) (peeks m j n)) offset stop)

-- One round of the loop of `read`.
pub read_loop_unmapped :
    (fuel : ℕ) (m : InMemGuest) (n cursor : ℕ) (out : List ℕ)
    → region m cursor ≡ none
    → read_loop (suc fuel) m (suc n) cursor out ≡ error (record { addr = cursor; len = suc n })
unfolding read_loop
read_loop_unmapped fuel m n cursor out e = ground (arith, e)

pub read_loop_found :
    (fuel : ℕ) (m : InMemGuest) (n cursor : ℕ) (out : List ℕ) (base : ℕ) (bytes : List ℕ)
    → region m cursor ≡ some (base, bytes)
    → let taken = min (suc n) (length bytes - (cursor - base)) in
      read_loop (suc fuel) m (suc n) cursor out
      ≡ read_loop fuel m
          (suc n - taken)
          (add_u64 cursor taken)
          (out ++ take taken (drop (cursor - base) bytes))
unfolding read_loop
read_loop_found fuel m n cursor out base bytes e = ground (arith, e)

peeks_unmapped :
    (m : InMemGuest) (cursor n : ℕ)
    → region m cursor ≡ none
    → peeks m cursor (suc n) ≡ error (record { addr = cursor; len = suc n })
unfolding peeks peek
peeks_unmapped m cursor n e = ground (arith, e)

read_loop-peeks :
    (fuel : ℕ) (m : InMemGuest) (remaining cursor : ℕ) (out : List ℕ)
    → IsLaid m
    → remaining ≤ fuel
    → read_loop fuel m remaining cursor out ≡ prepend out (peeks m cursor remaining)
read_loop-peeks zero m zero cursor out l h = unfold read_loop peeks in ap ok (sym (append-nil out))
read_loop-peeks zero m (suc n) cursor out l h = absurd (omega arith)
read_loop-peeks (suc fuel) m zero cursor out l h =
    unfold read_loop peeks in ap ok (sym (append-nil out))
read_loop-peeks (suc fuel) m (suc n) cursor out l h = elim (Option-cases (region m cursor)) [
  | inl unmapped ↦
      read_loop_unmapped fuel m n cursor out unmapped
      ∙ ap (prepend out) (sym (peeks_unmapped m cursor n unmapped))
  | inr ((base, bytes), e) ↦
      let taken = min (suc n) (length bytes - (cursor - base)) in
      let bounds = region_bounds m cursor base bytes l e in
      read_loop_found fuel m n cursor out base bytes e
      ∙ read_loop-peeks fuel m (suc n - taken) (add_u64 cursor taken) _ l (omega (arith, bounds))
      ∙ sym (prepend-prepend out _ _)
      ∙ ap (prepend out) (
          sym (
            peeks_chunk m base bytes taken (suc n - taken) (suc n) cursor l e
              (omega (arith, bounds)) (omega arith)))
]

-- Over a layout without covered regions, `read` is the reading byte by byte: the same bytes, and
-- on an unmapped byte the same error. Above `isize::MAX` bytes it panics.
pub read-peeks :
    (m : InMemGuest) (addr len : ℕ)
    → IsLaid m
    → read m addr len ≡ (if ltb isize_max len then panic else peeks m addr len)
unfolding read
read-peeks m addr len l = rw (read_loop-peeks len m len addr [] l (omega arith), prepend-nil)
