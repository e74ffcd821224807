-- ===== src/PyStr/Tokens.antt =====
-- `split()` sees no difference between a text and the text with its newlines unified, its lines
-- stripped, or its empty last lines dropped.
use secure_remote_code_execu.Prelude.{
  ℕ, ◌≡◌, refl, sym, ap, ◌∙◌, false, List, [], ◌∷◌, ◌++◌, map, arith, nat_eq,
}
use secure_remote_code_execu.Prelude.Texts.{Text, join}
use secure_remote_code_execu.PyStr.{
  is_nil, is_space, strip_end, rstrip, replace_crlf, replace_cr, split_newline, cons_first, flush,
  words_from, split,
}
use secure_remote_code_execu.PyStr.Newlines.{newline}

-- Two tails that read the same after any word read the same behind any text.
words_from-congr :
    (l s t : Text)
    → ((w : Text) → words_from w s ≡ words_from w t)
    → (w : Text) → words_from w (l ++ s) ≡ words_from w (l ++ t)
unfolding words_from
words_from-congr [] s t h w = h w
words_from-congr (c ∷ l) s t h w =
    ground (arith, words_from-congr l s t h [], words_from-congr l s t h (w ++ c ∷ []))

words_from-replace_crlf : (w s : Text) → words_from w (replace_crlf s) ≡ words_from w s
unfolding words_from replace_crlf is_space
words_from-replace_crlf w [] = refl
words_from-replace_crlf w (c ∷ []) = refl
words_from-replace_crlf w (c ∷ (d ∷ s)) = ground (
  arith,
  words_from-replace_crlf [] s,
  words_from-replace_crlf [] (d ∷ s),
  words_from-replace_crlf (w ++ c ∷ []) (d ∷ s),
)

words_from-replace_cr : (w s : Text) → words_from w (replace_cr s) ≡ words_from w s
unfolding words_from replace_cr is_space
words_from-replace_cr w [] = refl
words_from-replace_cr w (c ∷ s) =
    ground (arith, words_from-replace_cr [] s, words_from-replace_cr (w ++ c ∷ []) s)

-- A line's trailing whitespace, before the newline that ends the line.
words_from-rstrip : (l s w : Text) → words_from w (rstrip l ++ 10 ∷ s) ≡ words_from w (l ++ 10 ∷ s)
unfolding words_from rstrip is_space
words_from-rstrip [] s w = refl
words_from-rstrip (c ∷ l) s w =
    ground (arith, words_from-rstrip l s [], words_from-rstrip l s (w ++ c ∷ []))

-- The lines, each with a newline behind it.
abbrev unlines : List Text → Text
unlines [] = []
unlines (l ∷ ls) = l ++ 10 ∷ unlines ls

-- What is behind a newline is read from no word.
words_from-line :
    (l s t w : Text)
    → words_from [] s ≡ words_from [] t
    → words_from w (l ++ 10 ∷ s) ≡ words_from w (l ++ 10 ∷ t)
words_from-line l s t w h =
    words_from-congr l (10 ∷ s) (10 ∷ t) (λ v. unfold words_from is_space in ap (flush v) h) w

words_from-end : (l w : Text) → words_from w (l ++ newline) ≡ words_from w l
unfolding words_from is_space
words_from-end [] [] = refl
words_from-end [] (c ∷ w) = refl
words_from-end (c ∷ l) w = ground (arith, words_from-end l [], words_from-end l (w ++ c ∷ []))

words_from-join :
    (ls : List Text) (w : Text) → words_from w (join newline ls) ≡ words_from w (unlines ls)
words_from-join [] w = refl
words_from-join (l ∷ []) w = sym (words_from-end l w)
words_from-join (l ∷ (m ∷ ls)) w =
    words_from-line l (join newline (m ∷ ls)) (unlines (m ∷ ls)) w (words_from-join (m ∷ ls) [])

words_from-unlines-map :
    (ls : List Text) (w : Text) → words_from w (unlines (map rstrip ls)) ≡ words_from w (unlines ls)
words_from-unlines-map [] w = refl
words_from-unlines-map (l ∷ ls) w =
    words_from-rstrip l (unlines (map rstrip ls)) w
    ∙ words_from-line l (unlines (map rstrip ls)) (unlines ls) w (words_from-unlines-map ls [])

words_from-unlines-strip_end :
    (ls : List Text) → words_from [] (unlines (strip_end is_nil ls)) ≡ words_from [] (unlines ls)
unfolding strip_end words_from is_space
words_from-unlines-strip_end [] = refl
words_from-unlines-strip_end ([] ∷ ls) = ground (arith, words_from-unlines-strip_end ls)
words_from-unlines-strip_end ((c ∷ l) ∷ ls) =
    words_from-line (c ∷ l) (unlines (strip_end is_nil ls)) (unlines ls) []
      (words_from-unlines-strip_end ls)

cons_first-ne-nil : (c : ℕ) (ls : List Text) → is_nil (cons_first c ls) ≡ false
cons_first-ne-nil c [] = refl
cons_first-ne-nil c (l ∷ ls) = refl

split_newline-ne-nil : (s : Text) → is_nil (split_newline s) ≡ false
unfolding split_newline
split_newline-ne-nil [] = refl
split_newline-ne-nil (c ∷ s) = ground (arith, cons_first-ne-nil c (split_newline s))

join-cons_first :
    (c : ℕ) (ls : List Text)
    → is_nil ls ≡ false
    → join newline (cons_first c ls) ≡ c ∷ join newline ls
join-cons_first c [] h = cc
join-cons_first c (l ∷ []) h = refl
join-cons_first c (l ∷ (m ∷ ls)) h = refl

join-empty : (ls : List Text) → is_nil ls ≡ false → join newline ([] ∷ ls) ≡ 10 ∷ join newline ls
join-empty [] h = cc
join-empty (l ∷ ls) h = refl

-- Joining undoes splitting.
pub join-split_newline : (s : Text) → join newline (split_newline s) ≡ s
unfolding split_newline
join-split_newline [] = refl
join-split_newline (c ∷ s) = ground (
  arith,
  join-cons_first c (split_newline s),
  join-empty (split_newline s),
  split_newline-ne-nil s,
  join-split_newline s,
)

-- The words of a text survive every step of a normalisation.
pub split-lines :
    (s : Text)
    → split
        (join newline (strip_end is_nil (map rstrip (split_newline (replace_cr (replace_crlf s))))))
      ≡ split s
unfolding split
split-lines s =
    let t = replace_cr (replace_crlf s) in
    let ls = split_newline t in
    words_from-join (strip_end is_nil (map rstrip ls)) []
    ∙ words_from-unlines-strip_end (map rstrip ls)
    ∙ words_from-unlines-map ls []
    ∙ sym (words_from-join ls [])
    ∙ ap (words_from []) (join-split_newline t)
    ∙ words_from-replace_cr [] (replace_crlf s)
    ∙ words_from-replace_crlf [] s
