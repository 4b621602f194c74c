-- ===== src/Base/Substrings.antt =====
-- Which texts `contains_text` finds: those with the sought text between two others.
use mathlib.Core.Path.{◌≡◌, refl, ap, ◌∙◌}
use mathlib.Core.Logic.{◌↔◌, inl, inr}
use mathlib.Core.Bool.{true}
use mathlib.Core.List.{[], ◌∷◌, ◌++◌}
use native.Mathlib.Omega.{arith}
use win_vpwn.Base.Tests.{==_iff, Bool-cases}
use win_vpwn.Base.Strings.{Text, starts_with, contains_text}

starts_with-prefix :
    (needle hay : Text) → starts_with needle hay ≡ true → (after : Text) × (hay ≡ needle ++ after)
starts_with-prefix [] hay h = (hay, refl)
starts_with-prefix (n ∷ ns) [] h = absurd (ground (arith, h))
starts_with-prefix (n ∷ ns) (c ∷ hay) h =
    let first : n ≡ c = (==_iff n c).0 (ground (arith, h)) in
    let (after, rest) = starts_with-prefix ns hay (ground (arith, h)) in (after, cc (first, rest))

starts_with-append : (needle after : Text) → starts_with needle (needle ++ after) ≡ true
starts_with-append [] after = refl
starts_with-append (n ∷ ns) after = ground (arith, (==_iff n n).1 refl, starts_with-append ns after)

contains_text-starts :
    (needle hay : Text) → starts_with needle hay ≡ true → contains_text needle hay ≡ true
contains_text-starts needle [] h = h
contains_text-starts needle (c ∷ hay) h = rw h

contains_text-parts :
    (needle hay : Text)
    → contains_text needle hay ≡ true
    → (before after : Text) × (hay ≡ before ++ (needle ++ after))
contains_text-parts needle [] h =
    let (after, same) = starts_with-prefix needle [] h in ([], after, same)
contains_text-parts needle (c ∷ hay) h = elim (Bool-cases (starts_with needle (c ∷ hay))) [
  | inl now ↦ let (after, same) = starts_with-prefix needle (c ∷ hay) now in ([], after, same)
  | inr later ↦
      let (before, after, same) = contains_text-parts needle hay (rw later at h) in
      (c ∷ before, after, ap (λ rest. c ∷ rest) same)
]

contains_text-append :
    (needle before after : Text) → contains_text needle (before ++ (needle ++ after)) ≡ true
contains_text-append needle [] after =
    contains_text-starts needle (needle ++ after) (starts_with-append needle after)
contains_text-append needle (c ∷ before) after =
    ground (arith, contains_text-append needle before after)

pub contains_text_iff :
    (needle hay : Text)
    → (contains_text needle hay ≡ true)
      ↔ ((before : Text) × (after : Text) × (hay ≡ before ++ (needle ++ after)))
contains_text_iff needle hay = (
  contains_text-parts needle hay,
  λ (before, after, same).
      ap (contains_text needle) same ∙ contains_text-append needle before after,
)
