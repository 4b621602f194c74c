-- ===== src/Vkernel/Capture/Combined.antt =====
-- What a client reads of captured output after a write, and in which order it is combined.
use win_vpwn.Base.{
  ℕ, ℤ, pos, List, [], ◌++◌, ◌∷◌, none, ◌≡◌, refl, arith, if◌then◌else◌, eq_ℤ, eq_ℤ_iff, ltb_ℤ,
  true, append-nil, ◌⊎◌, inl, inr, Bool-cases, subst, ap,
}
use win_vpwn.Base.BTree
use win_vpwn.Base.BTree.{BTreeMap, i64_key, IsOrdered, AllAbove}
use win_vpwn.Vkernel.Capture.{
  OutputCapture, or_empty, get, write, stdout, stderr, combined_from, combined,
}

-- After a write a descriptor's bytes are the old ones followed by the new; the others keep theirs.
pub get-write :
    (c : OutputCapture) (fd : ℤ) (bytes : List ℕ) (other : ℤ)
    → get (write c fd bytes) other ≡ (if eq_ℤ other fd then get c fd ++ bytes else get c other)
unfolding get write
get-write c fd bytes other =
    ground (arith, BTree.get-insert c.buffers fd (or_empty (BTree.get c.buffers fd) ++ bytes) other)

abbrev pub IsValid : OutputCapture → Type 0
IsValid c = IsOrdered c.buffers

-- A write keeps the buffers ordered by descriptor.
pub write-IsValid :
    (c : OutputCapture) (fd : ℤ) (bytes : List ℕ) → IsValid c → IsValid (write c fd bytes)
unfolding write
write-IsValid c fd bytes v =
    BTree.IsOrdered-insert c.buffers fd (or_empty (BTree.get c.buffers fd) ++ bytes) v

-- Above both descriptors there is nothing to combine, and nothing to read.
none_above :
    (k : ℤ) (m : BTreeMap ℤ (List ℕ)) (fd : ℤ)
    → AllAbove k m
    → (ltb_ℤ fd k ≡ true) ⊎ (fd ≡ k)
    → BTree.get m fd ≡ none
none_above k [] fd a h = refl
none_above k ((j, v) ∷ m) fd a h = ground (arith, none_above k m fd a.1 h)

combined_above_two : (m : BTreeMap ℤ (List ℕ)) → AllAbove (pos 2) m → combined_from m ≡ []
combined_above_two [] a = refl
combined_above_two ((j, v) ∷ m) a = ground (arith, combined_above_two m a.1)

combined_above_one :
    (m : BTreeMap ℤ (List ℕ))
    → IsOrdered m
    → AllAbove (pos 1) m
    → combined_from m ≡ or_empty (BTree.get m (pos 2))
combined_above_one [] o a = refl
combined_above_one ((j, v) ∷ m) o a = elim (Bool-cases (eq_ℤ j (pos 2))) [
  | inl two ↦ head ((eq_ℤ_iff j (pos 2)).0 two)
  | inr other ↦ ground (arith, combined_above_one m o.1 a.1)
]
  where
    head : j ≡ pos 2 → combined_from ((j, v) ∷ m) ≡ or_empty (BTree.get ((j, v) ∷ m) (pos 2))
    head e = rw (e, combined_above_two m (subst (λ k. AllAbove k m) e o.0)) (append-nil v)

combined_from_lem :
    (m : BTreeMap ℤ (List ℕ))
    → IsOrdered m
    → combined_from m ≡ or_empty (BTree.get m (pos 1)) ++ or_empty (BTree.get m (pos 2))
combined_from_lem [] o = refl
combined_from_lem ((j, v) ∷ m) o = elim (Bool-cases (eq_ℤ j (pos 1))) [
  | inl one ↦ first ((eq_ℤ_iff j (pos 1)).0 one)
  | inr other ↦ elim (Bool-cases (eq_ℤ j (pos 2))) [
    | inl two ↦ second ((eq_ℤ_iff j (pos 2)).0 two)
    | inr neither ↦ ground (arith, combined_from_lem m o.1)
  ]
]
  where
    Split : Type 0
    Split =
        combined_from ((j, v) ∷ m)
        ≡ or_empty (BTree.get ((j, v) ∷ m) (pos 1)) ++ or_empty (BTree.get ((j, v) ∷ m) (pos 2))

    first : j ≡ pos 1 → Split
    first e = rw e (ap (λ t. v ++ t) (combined_above_one m o.1 (subst (λ k. AllAbove k m) e o.0)))

    second : j ≡ pos 2 → Split
    second e =
        let above = subst (λ k. AllAbove k m) e o.0 in
        rw (e, combined_above_two m above, none_above (pos 2) m (pos 1) above (inl refl))
          (append-nil v)

-- The combined output of a capture whose buffers are ordered by descriptor is standard output
-- followed by standard error, and nothing else.
pub combined_lem : (c : OutputCapture) → IsValid c → combined c ≡ stdout c ++ stderr c
unfolding combined stdout stderr
combined_lem c v = combined_from_lem c.buffers v
