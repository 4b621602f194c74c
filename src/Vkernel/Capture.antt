-- ===== src/Vkernel/Capture.antt =====
-- crates/winvpwn-core/src/vkernel/io.rs: the captured output, a buffer for each descriptor.
pub mod Combined
use win_vpwn.Base.{
  ℕ, ℤ, pos, List, [], ◌++◌, ◌∷◌, Option, none, some, ◌≡◌, refl, arith, if◌then◌else◌, eq_ℤ,
  eq_ℤ_iff, ◌||◌,
}
use win_vpwn.Base.BTree
use win_vpwn.Base.BTree.{BTreeMap, i64_key}

pub record OutputCapture : Type 0 where
  pub buffers : BTreeMap ℤ (List ℕ)

-- `OutputCapture::default`
abbrev pub empty_capture : OutputCapture
empty_capture = record { buffers = [] }

abbrev pub or_empty : Option (List ℕ) → List ℕ
or_empty none = []
or_empty (some bytes) = bytes

unfoldable pub get : OutputCapture → ℤ → List ℕ
get c fd = or_empty (BTree.get c.buffers fd)

unfoldable pub write : OutputCapture → ℤ → List ℕ → OutputCapture
write c fd bytes = record {
  buffers = BTree.insert c.buffers fd (or_empty (BTree.get c.buffers fd) ++ bytes);
}

unfoldable pub stdout : OutputCapture → List ℕ
unfolding get
stdout c = get c (pos 1)

unfoldable pub stderr : OutputCapture → List ℕ
unfolding get
stderr c = get c (pos 2)

-- the loop of `combined` over the buffers in key order
abbrev pub combined_from : BTreeMap ℤ (List ℕ) → List ℕ
combined_from [] = []
combined_from ((fd, bytes) ∷ rest) =
    let out = combined_from rest in if eq_ℤ fd (pos 1) || eq_ℤ fd (pos 2) then bytes ++ out else out

unfoldable pub combined : OutputCapture → List ℕ
combined c = combined_from c.buffers
