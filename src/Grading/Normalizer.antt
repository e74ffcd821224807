-- ===== src/Grading/Normalizer.antt =====
-- worker/grading/normalizer.py: `OutputNormalizer`. `difflib.unified_diff` is a parameter of
-- `generate_diff`: it takes the two lists of lines and returns the lines of the diff.
pub mod Laws
pub mod Endings
use secure_remote_code_execu.Prelude.{
  ℕ, ◌-◌, List, [], ◌∷◌, ◌++◌, map, length, take, ltb, if◌then◌else◌,
}
use secure_remote_code_execu.Prelude.Texts.{Text, codes, join, is_truthy, show_nat}
use secure_remote_code_execu.PyStr.{
  is_nil, strip_end, rstrip, replace_crlf, replace_cr, split_newline, split, splitlines,
}
use secure_remote_code_execu.PyStr.Newlines.{newline}

unfoldable pub normalize_text : Text → Text
unfolding strip_end rstrip replace_crlf replace_cr split_newline
normalize_text text =
    let text' = replace_cr (replace_crlf text) in
    let lines = map rstrip (split_newline text') in
    if is_truthy text then join newline (strip_end is_nil lines) else []

unfoldable pub tokenize : Text → List Text
unfolding split
tokenize text = split text

-- `max_lines` has no other value in the program than its default, 20.
abbrev pub max_lines : ℕ
max_lines = 20

-- What `generate_diff` makes of the lines of the diff.
unfoldable pub shorten : List Text → List Text
shorten lines =
    if ltb max_lines (length lines)
    then take max_lines lines
      ++ (codes "... ("
          ++ (show_nat (length lines - max_lines) ++ codes " more diff lines truncated)"))
        ∷ []
    else lines

module _ (unified_diff : List Text → List Text → List Text) where
  unfoldable pub generate_diff : Text → Text → Text
  unfolding normalize_text splitlines shorten
  generate_diff expected actual =
      let lines =
        unified_diff (splitlines (normalize_text expected)) (splitlines (normalize_text actual)) in
      join newline (shorten lines)
