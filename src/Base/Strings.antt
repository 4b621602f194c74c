-- ===== src/Base/Strings.antt =====
-- Texts as lists of code points, for the messages that the source formats and searches.
use Prim.Native.Nat.{ℕ, zero, suc, ◌+◌, ◌-◌, ◌/◌, ◌%◌}
use Prim.Native.Char.{code}
use Prim.Native.String.{String}
use mathlib.Core.Bool.{Bool, true, false, ◌&&◌, ◌||◌}
use mathlib.Core.List.{List, [], ◌∷◌}
use win_vpwn.Base.Tests.{ltb, ◌==◌, if◌then◌else◌}

abbrev pub Text : Type 0
Text = List ℕ

abbrev pub codes : String → Text
codes String.[] = []
codes (String.◌∷◌ c s) = code c ∷ codes s

-- The digit of a number below 16.
abbrev pub hex_digit : ℕ → ℕ
hex_digit d = if ltb d 10 then b'0' + d else b'a' + (d - 10)

-- Digits in front of `rest`, on as many rounds as the fuel gives.
pub digits_from : ℕ → (ℕ → ℕ) → ℕ → ℕ → Text → Text
digits_from zero digit base n rest = rest
digits_from (suc f) digit base n rest =
    let more = digits_from f digit base (n / base) (digit (n % base) ∷ rest) in
    if ltb n base then digit n ∷ rest else more

-- `{:x}` and `{}` of a number below `2 ^ 64`: 16 and 20 digits are enough.
unfoldable pub to_hex : ℕ → Text
unfolding digits_from
to_hex n = digits_from 16 hex_digit 16 n []

unfoldable pub to_decimal : ℕ → Text
unfolding digits_from
to_decimal n = digits_from 20 (λ d. b'0' + d) 10 n []

-- `str::contains`
abbrev pub starts_with : Text → Text → Bool
starts_with [] hay = true
starts_with (n ∷ ns) [] = false
starts_with (n ∷ ns) (h ∷ hay) = n == h && starts_with ns hay

abbrev pub contains_text : Text → Text → Bool
contains_text needle [] = starts_with needle []
contains_text needle (h ∷ hay) = starts_with needle (h ∷ hay) || contains_text needle hay

-- The comparison of two byte slices.
abbrev pub eq_text : Text → Text → Bool
eq_text [] [] = true
eq_text [] (b ∷ bs) = false
eq_text (a ∷ rest) [] = false
eq_text (a ∷ rest) (b ∷ bs) = a == b && eq_text rest bs
