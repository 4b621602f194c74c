-- ===== src/Base/Exec.antt =====
-- Methods that change `self` and may fail: a state and an `Outcome`, with early return by `>>=`.
use mathlib.Core.Path.{◌≡◌, refl}
use mathlib.Core.Logic.{inl, inr}
use win_vpwn.Base.Results.{Outcome, ok, error, panic, Done, Outcome-cases}

abbrev pub Exec {ℓ κ} : Type ℓ → Type κ → Type 0 → Type (ℓ ⊔ κ)
Exec S E A = S → Outcome E A × S

-- The rest of a method, after a step that succeeded.
abbrev pub proceed {ℓ κ} :
    {S : Type ℓ} {E : Type κ} {A B : Type 0} → Outcome E A → S → (A → Exec S E B) → Outcome E B × S
proceed (ok a) s f = f a s
proceed (error e) s f = (error e, s)
proceed panic s f = (panic, s)

infixl 5 ◌>>=◌ ◌>>◌
abbrev pub ◌>>=◌ {ℓ κ} :
    {S : Type ℓ} {E : Type κ} {A B : Type 0} → Exec S E A → (A → Exec S E B) → Exec S E B
◌>>=◌ m f s = proceed (m s).0 (m s).1 f

abbrev pub ◌>>◌ {ℓ κ} :
    {S : Type ℓ} {E : Type κ} {B : Type 0} → Exec S E Done → Exec S E B → Exec S E B
m >> k = m >>= λ _. k

abbrev pub pure {ℓ κ} : {S : Type ℓ} {E : Type κ} {A : Type 0} → A → Exec S E A
pure a s = (ok a, s)

-- A step that only computes.
abbrev pub lift {ℓ κ} : {S : Type ℓ} {E : Type κ} {A : Type 0} → Outcome E A → Exec S E A
lift r s = (r, s)

abbrev pub modify {ℓ κ} : {S : Type ℓ} {E : Type κ} → (S → S) → Exec S E Done
modify f s = (ok tt, f s)

-- A sequence of steps that succeeds: each step has.
pub >>=-ok {ℓ κ} :
    {S : Type ℓ} {E : Type κ} {A B : Type 0} (m : Exec S E A) (f : A → Exec S E B) (s : S) (b : B)
    → ((m >>= f) s).0 ≡ ok b
    → (a : A) × ((m s).0 ≡ ok a) × ((m >>= f) s ≡ f a (m s).1)
>>=-ok m f s b h = elim (Outcome-cases (m s).0) [
  | inl (a, e) ↦ (a, e, rw e refl)
  | inr (inl (x, e)) ↦ cc (rw e at h)
  | inr (inr e) ↦ cc (rw e at h)
]

-- The property holds after the method when it held before, on every branch.
abbrev pub Keeps {ℓ κ} : {S : Type ℓ} {E : Type κ} {A : Type 0} → (S → Type ℓ) → Exec S E A → Type ℓ
Keeps {S} P m = (s : S) → P s → P (m s).1

pub >>=-Keeps {ℓ κ} :
    {S : Type ℓ} {E : Type κ} {A B : Type 0} (P : S → Type ℓ) (m : Exec S E A) (f : A → Exec S E B)
    → Keeps P m
    → ((a : A) → Keeps P (f a))
    → Keeps P (m >>= f)
>>=-Keeps P m f hm hf s h = elim (Outcome-cases (m s).0) [
  | inl (a, e) ↦ rw e (hf a (m s).1 (hm s h))
  | inr (inl (x, e)) ↦ rw e (hm s h)
  | inr (inr e) ↦ rw e (hm s h)
]
