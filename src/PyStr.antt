-- ===== src/PyStr.antt =====
-- The `str` methods that the program calls, over code points: `isspace`, `lstrip`, `rstrip`, `strip`,
-- `replace`, `split` and `splitlines`.
pub mod Strip
pub mod Newlines
pub mod Tokens
use secure_remote_code_execu.Prelude.{
  ℕ, Bool, true, false, not, ◌&&◌, ◌||◌, List, [], ◌∷◌, ◌++◌, ltb, leb, ◌==◌, nat_eq, if◌then◌else◌,
}
use secure_remote_code_execu.Prelude.Texts.{Text}

abbrev pub is_nil {ℓ} : {A : Type ℓ} → List A → Bool
is_nil [] = true
is_nil (x ∷ xs) = false

-- `str.isspace` of one code point.
unfoldable pub is_space : ℕ → Bool
is_space c =
    (leb 9 c && leb c 13)
    || (leb 28 c && leb c 32)
    || c == 133
    || c == 160
    || c == 5760
    || (leb 8192 c && leb c 8202)
    || c == 8232
    || c == 8233
    || c == 8239
    || c == 8287
    || c == 12288

-- The list without its longest tail whose elements all pass: `rstrip` on a text, and the loop
-- `while xs and p(xs[-1]): xs.pop()` on a list.
unfoldable pub strip_end {ℓ} : {A : Type ℓ} → (A → Bool) → List A → List A
strip_end p [] = []
strip_end p (x ∷ xs) = let rest = strip_end p xs in if p x && is_nil rest then [] else x ∷ rest

-- `s.rstrip()`
unfoldable pub rstrip : Text → Text
unfolding strip_end
rstrip s = strip_end is_space s

-- `s.replace("\r\n", "\n")`
unfoldable pub replace_crlf : Text → Text
replace_crlf [] = []
replace_crlf (c ∷ []) = c ∷ []
replace_crlf (c ∷ (d ∷ s)) =
    let joined = replace_crlf s in
    let rest = replace_crlf (d ∷ s) in if c == 13 && d == 10 then 10 ∷ joined else c ∷ rest

-- `s.replace("\r", "\n")`
unfoldable pub replace_cr : Text → Text
replace_cr [] = []
replace_cr (c ∷ s) = (if c == 13 then 10 else c) ∷ replace_cr s

abbrev pub cons_first : ℕ → List Text → List Text
cons_first c [] = (c ∷ []) ∷ []
cons_first c (l ∷ ls) = (c ∷ l) ∷ ls

-- `s.split("\n")`
unfoldable pub split_newline : Text → List Text
split_newline [] = [] ∷ []
split_newline (c ∷ s) =
    let rest = split_newline s in if c == 10 then [] ∷ rest else cons_first c rest

-- The word read so far, if there is one, before the words that follow.
abbrev pub flush : Text → List Text → List Text
flush [] ts = ts
flush (c ∷ w) ts = (c ∷ w) ∷ ts

unfoldable pub words_from : Text → Text → List Text
words_from word [] = flush word []
words_from word (c ∷ s) =
    let ended = words_from [] s in
    let longer = words_from (word ++ c ∷ []) s in if is_space c then flush word ended else longer

-- `s.split()`
unfoldable pub split : Text → List Text
unfolding words_from
split s = words_from [] s

-- The line boundaries of `splitlines` other than "\r\n".
is_line_end : ℕ → Bool
is_line_end c =
    (leb 10 c && leb c 13) || (leb 28 c && leb c 30) || c == 133 || c == 8232 || c == 8233

-- `s.splitlines(keepends=True)`, with the line read so far.
lines_from : Text → Text → List Text
lines_from line [] = flush line []
lines_from line (c ∷ []) = (line ++ c ∷ []) ∷ []
lines_from line (c ∷ (d ∷ s)) =
    let after_crlf = lines_from [] s in
    let ended = lines_from [] (d ∷ s) in
    let longer = lines_from (line ++ c ∷ []) (d ∷ s) in
    if c == 13 && d == 10
    then (line ++ (c ∷ (d ∷ []))) ∷ after_crlf
    else if is_line_end c
    then (line ++ c ∷ []) ∷ ended
    else longer

unfoldable pub splitlines : Text → List Text
unfolding lines_from is_line_end
splitlines s = lines_from [] s

-- `s.lstrip()`
unfoldable pub lstrip : Text → Text
lstrip [] = []
lstrip (c ∷ s) = let rest = lstrip s in if is_space c then rest else c ∷ s

-- `s.strip()`
unfoldable pub strip : Text → Text
strip s = rstrip (lstrip s)
