-- ===== src/Vkernel/Guest/Lookups.antt =====
-- What a lookup finds after new bytes are put into a region.
use win_vpwn.Base.{
  ℕ, ◌+◌, ◌≤◌, ◌<◌, max, List, [], ◌∷◌, Bool-cases, none, some, Option-cases, ◌≡◌, ◌≢◌, refl, sym,
  ap, ap₂, ◌∙◌, subst, ◌⊎◌, inl, inr, arith, length, leb,
}
use win_vpwn.Base.BTree
use win_vpwn.Base.BTree.{u64_key}
use win_vpwn.Vkernel.Guest.Laid.{Regions, IsLaidFrom, last_le_bounds}
use win_vpwn.Vkernel.Guest.Writes.{last_le-from}

insert_first :
    (j base : ℕ) (v new : List ℕ) (m : Regions)
    → j ≡ base
    → BTree.insert ((j, v) ∷ m) base new ≡ (base, new) ∷ m
insert_first j base v new m h = ground (arith, h)

insert_later :
    (j base : ℕ) (v new : List ℕ) (m : Regions)
    → j < base
    → BTree.insert ((j, v) ∷ m) base new ≡ (j, v) ∷ BTree.insert m base new
insert_later j base v new m h = ground (arith, h)

-- The lookup, by what it finds in the later regions.
last_le_found :
    (j a : ℕ) (v : List ℕ) (m : Regions) (e : ℕ × List ℕ)
    → j ≤ a
    → BTree.last_le m a ≡ some e
    → BTree.last_le ((j, v) ∷ m) a ≡ some e
last_le_found j a v m e h found = ground (arith, h, found)

last_le_first :
    (j a : ℕ) (v : List ℕ) (m : Regions)
    → j ≤ a
    → BTree.last_le m a ≡ none
    → BTree.last_le ((j, v) ∷ m) a ≡ some (j, v)
last_le_first j a v m h last = ground (arith, h, last)

last_le_before : (j a : ℕ) (v : List ℕ) (m : Regions) → a < j → BTree.last_le ((j, v) ∷ m) a ≡ none
last_le_before j a v m h = ground (arith, h)

last_le_cong :
    (j a : ℕ) (v : List ℕ) (m m' : Regions)
    → BTree.last_le m' a ≡ BTree.last_le m a
    → BTree.last_le ((j, v) ∷ m') a ≡ BTree.last_le ((j, v) ∷ m) a
last_le_cong j a v m m' h = rw h refl

last_le_rest :
    (j a base : ℕ) (v x : List ℕ) (m : Regions)
    → j < base
    → BTree.last_le ((j, v) ∷ m) a ≡ some (base, x)
    → BTree.last_le m a ≡ some (base, x)
last_le_rest j a base v x m h e = elim (Option-cases (BTree.last_le m a)) [
  | inl last ↦ absurd (ground (arith, last))
  | inr (found, later) ↦ ground (arith, later)
]

module _ (c base : ℕ) (bytes new : List ℕ) where
  -- The lookup of `a` finds in `m'` what it finds in `m`, another region than the one at `base`; or
  -- it finds that region, with its new bytes.
  unfoldable pub Renewed : Regions → Regions → ℕ → Type 0
  Renewed m m' a =
      ((BTree.last_le m' a ≡ BTree.last_le m a)
        × ((v : List ℕ) → BTree.last_le m a ≢ some (base, v)))
      ⊎ ((BTree.last_le m a ≡ some (base, bytes)) × (BTree.last_le m' a ≡ some (base, new)))

  Renewed-before :
      (j a : ℕ) (v w : List ℕ) (m m' : Regions) → a < j → Renewed ((j, v) ∷ m) ((j, w) ∷ m') a
  unfolding Renewed
  Renewed-before j a v w m m' h =
      let missed = last_le_before j a v m h in
      inl (last_le_before j a w m' h ∙ sym missed, λ x e. cc (sym missed ∙ e))

  Renewed-first :
      (m : Regions) (a : ℕ)
      → IsLaidFrom ((base, bytes) ∷ m)
      → Renewed ((base, bytes) ∷ m) ((base, new) ∷ m) a
  unfolding Renewed
  Renewed-first m a l = elim (Bool-cases (leb base a)) [
    | inr before ↦ Renewed-before base a bytes new m m (ground (arith, before))
    | inl reached ↦
        let h : base ≤ a = ground (arith, reached) in
        elim (Option-cases (BTree.last_le m a)) [
          | inl last ↦ inr (last_le_first base a bytes m h last, last_le_first base a new m h last)
          | inr (e, later) ↦
              let old = last_le_found base a bytes m e h later in
              inl (
                last_le_found base a new m e h later ∙ sym old,
                λ v same.
                    let e' : e ≡ (base, v) = ground (arith, old, same) in
                    let up =
                      last_le-from (base + max 1 (length bytes)) a base v m l.1 l.2
                        (later ∙ ap some e') in
                    absurd (omega (arith, up)),
              )
        ]
  ]

  Renewed-later :
      (j a : ℕ) (v : List ℕ) (m m' : Regions)
      → IsLaidFrom m
      → j < base
      → Renewed m m' a
      → Renewed ((j, v) ∷ m) ((j, v) ∷ m') a
  unfolding Renewed
  Renewed-later j a v m m' l h (inl (same, apart)) =
      inl (last_le_cong j a v m m' same, λ x e. apart x (last_le_rest j a base v x m h e))
  Renewed-later j a v m m' l h (inr (old, anew)) =
      let (below, _) = last_le_bounds m a base bytes l old in
      inr (
        last_le_found j a v m (base, bytes) (omega (arith, below, h)) old,
        last_le_found j a v m' (base, new) (omega (arith, below, h)) anew,
      )

  pub last_le-insert :
      (m : Regions) (a : ℕ)
      → IsLaidFrom m
      → BTree.last_le m c ≡ some (base, bytes)
      → Renewed m (BTree.insert m base new) a
  last_le-insert [] a l e = cc
  last_le-insert ((j, v) ∷ m) a l e = elim (Option-cases (BTree.last_le m c)) [
    | inl last ↦
        let here : (j ≡ base) × (v ≡ bytes) = ground (arith, last) in
        let laid = subst (λ r. IsLaidFrom (r ∷ m)) (ap₂ (λ x y. (x, y)) here.0 here.1) l in
        rw (insert_first j base v new m here.0, here.0, here.1) (Renewed-first m a laid)
    | inr (found, later) ↦
        let e' : BTree.last_le m c ≡ some (base, bytes) = ground (arith, later) in
        let up = last_le-from (j + max 1 (length v)) c base bytes m l.1 l.2 e' in
        let past : j < base = omega (arith, up) in
        rw (insert_later j base v new m past)
          (Renewed-later j a v m (BTree.insert m base new) l.2 past (last_le-insert m a l.2 e'))
  ]
