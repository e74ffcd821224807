-- ===== src/Prelude/Texts.antt =====
-- Python's `str` as the list of its code points.
use Prim.Native.Nat.{ℕ, zero, suc, ◌+◌, ◌/◌, ◌%◌}
use Prim.Native.Char.{code}
use Prim.Native.String.{String}
use mathlib.Core.List.{List, [], ◌∷◌, ◌++◌}
use mathlib.Core.Bool.{Bool, true, false, ◌&&◌, ◌||◌}
use secure_remote_code_execu.Prelude.Tests.{if◌then◌else◌, ltb, ◌==◌, nat_eq}

abbrev pub Text : Type 0
Text = List ℕ

-- A quoted text of the source.
abbrev pub codes : String → Text
codes String.[] = []
codes (String.◌∷◌ c s) = code c ∷ codes s

-- `if s:` for a `str`
abbrev pub is_truthy : Text → Bool
is_truthy [] = false
is_truthy (c ∷ s) = true

-- `a or b` for texts
abbrev pub text_or : Text → Text → Text
text_or [] b = b
text_or (c ∷ s) b = c ∷ s

-- The decimal digits of a number, put before `rest`. A number has fewer digits than `n + 1`.
digits_from : ℕ → ℕ → Text → Text
digits_from zero n rest = rest
digits_from (suc fuel) n rest =
    let more = digits_from fuel (n / 10) ((48 + n % 10) ∷ rest) in
    if ltb n 10 then (48 + n) ∷ rest else more

-- `str(n)`
unfoldable pub show_nat : ℕ → Text
unfolding digits_from
show_nat n = digits_from (suc n) n []

-- `sep.join(parts)`
abbrev pub join : Text → List Text → Text
join sep [] = []
join sep (x ∷ []) = x
join sep (x ∷ (y ∷ rest)) = x ++ (sep ++ join sep (y ∷ rest))

abbrev pub starts_with : Text → Text → Bool
starts_with [] s = true
starts_with (c ∷ word) [] = false
starts_with (c ∷ word) (d ∷ s) = (c == d) && starts_with word s

-- `word in s`
abbrev pub contains : Text → Text → Bool
contains word [] = starts_with word []
contains word (c ∷ s) = starts_with word (c ∷ s) || contains word s
