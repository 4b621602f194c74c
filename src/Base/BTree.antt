-- ===== src/Base/BTree.antt =====
-- `std::collections::BTreeMap`: an association list in the order of its keys.
use mathlib.Core.Path.{◌≡◌, refl, sym, subst}
use mathlib.Core.Logic.{◌↔◌, inl, inr}
use mathlib.Core.Bool.{Bool, true, false, ◌||◌}
use mathlib.Core.Option.{Option, none, some}
use mathlib.Core.List.{List, [], ◌∷◌}
use Prim.Native.Nat.{ℕ}
use native.Mathlib.Omega.{arith}
use win_vpwn.Base.Tests.{ltb, ◌==◌, ==_iff, if◌then◌else◌, Bool-cases}
use win_vpwn.Base.Word.{ℤ, eq_ℤ, ltb_ℤ, eq_ℤ_iff}

-- The order that a map asks of its keys.
pub record Key (K : Type 0) : Type 0 where
  pub lt : K → K → Bool
  pub eq : K → K → Bool
  pub eq_iff : (a b : K) → (eq a b ≡ true) ↔ (a ≡ b)
  pub lt_trans : (a b c : K) → lt a b ≡ true → lt b c ≡ true → lt a c ≡ true
  pub lt_total : (a b : K) → lt a b ≡ false → eq a b ≡ false → lt b a ≡ true

pub lt_trans_ℕ : (a b c : ℕ) → ltb a b ≡ true → ltb b c ≡ true → ltb a c ≡ true
lt_trans_ℕ a b c p q = ground arith

pub lt_total_ℕ : (a b : ℕ) → ltb a b ≡ false → (a == b) ≡ false → ltb b a ≡ true
lt_total_ℕ a b p q = ground arith

pub lt_trans_ℤ : (a b c : ℤ) → ltb_ℤ a b ≡ true → ltb_ℤ b c ≡ true → ltb_ℤ a c ≡ true
lt_trans_ℤ a b c p q = ground arith

pub lt_total_ℤ : (a b : ℤ) → ltb_ℤ a b ≡ false → eq_ℤ a b ≡ false → ltb_ℤ b a ≡ true
lt_total_ℤ a b p q = ground arith

instance abbrev pub u64_key : Key ℕ
u64_key = record {
  lt = ltb;
  eq = ◌==◌;
  eq_iff = ==_iff;
  lt_trans = lt_trans_ℕ;
  lt_total = lt_total_ℕ;
}

instance abbrev pub i64_key : Key ℤ
i64_key = record {
  lt = ltb_ℤ;
  eq = eq_ℤ;
  eq_iff = eq_ℤ_iff;
  lt_trans = lt_trans_ℤ;
  lt_total = lt_total_ℤ;
}

abbrev pub BTreeMap {ℓ} : Type 0 → Type ℓ → Type ℓ
BTreeMap K V = List (K × V)

module _ {ℓ} {K : Type 0} {V : Type ℓ} ⦃key : Key K⦄ where
  abbrev pub get : BTreeMap K V → K → Option V
  get [] k = none
  get ((j, v) ∷ m) k = if key.eq k j then some v else get m k

  abbrev pub insert : BTreeMap K V → K → V → BTreeMap K V
  insert [] k v = (k, v) ∷ []
  insert ((j, w) ∷ m) k v =
      if key.eq k j
      then (k, v) ∷ m
      else if key.lt k j
      then (k, v) ∷ (j, w) ∷ m
      else (j, w) ∷ insert m k v

  -- `range(..=a).next_back()`: the entry with the greatest key that is not above `a`
  abbrev pub last_le : BTreeMap K V → K → Option (K × V)
  last_le [] a = none
  last_le ((j, v) ∷ m) a =
      let later = last_le m a in
      if key.eq j a || key.lt j a then elim later [ none ↦ some (j, v) | some e ↦ some e ] else none

  -- Every key of the map is above `k`.
  abbrev pub AllAbove : K → BTreeMap K V → Type 0
  AllAbove k [] = Unit
  AllAbove k ((j, v) ∷ m) = (key.lt k j ≡ true) × AllAbove k m

  abbrev pub IsOrdered : BTreeMap K V → Type 0
  IsOrdered [] = Unit
  IsOrdered ((j, v) ∷ m) = AllAbove j m × IsOrdered m

  pub get-insert :
      (m : BTreeMap K V) (k : K) (v : V) (j : K)
      → get (insert m k v) j ≡ (if key.eq j k then some v else get m j)
  get-insert [] k v j = refl
  get-insert ((i, w) ∷ m) k v j =
      ground (arith, get-insert m k v j, key.eq_iff k i, key.eq_iff j i, key.eq_iff j k)

  AllAbove-trans : (a b : K) (m : BTreeMap K V) → key.lt a b ≡ true → AllAbove b m → AllAbove a m
  AllAbove-trans a b [] h p = tt
  AllAbove-trans a b ((j, v) ∷ m) h p = (key.lt_trans a b j h p.0, AllAbove-trans a b m h p.1)

  AllAbove-insert :
      (a : K) (m : BTreeMap K V) (k : K) (v : V)
      → key.lt a k ≡ true
      → AllAbove a m
      → AllAbove a (insert m k v)
  AllAbove-insert a [] k v h p = (h, tt)
  AllAbove-insert a ((j, w) ∷ m) k v h p = ground (arith, AllAbove-insert a m k v h p.1)

  pub IsOrdered-insert : (m : BTreeMap K V) (k : K) (v : V) → IsOrdered m → IsOrdered (insert m k v)
  IsOrdered-insert [] k v p = (tt, tt)
  IsOrdered-insert ((j, w) ∷ m) k v p = elim (Bool-cases (key.eq k j)) [
    | inl same ↦ rw same (subst (λ i. AllAbove i m) (sym ((key.eq_iff k j).0 same)) p.0, p.1)
    | inr other ↦ elim (Bool-cases (key.lt k j)) [
      | inl below ↦ rw (other, below) ((below, AllAbove-trans k j m below p.0), p)
      | inr above ↦
          rw (other, above)
            (AllAbove-insert j m k v (key.lt_total k j above other) p.0, IsOrdered-insert m k v p.1)
    ]
  ]
