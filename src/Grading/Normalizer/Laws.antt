-- ===== src/Grading/Normalizer/Laws.antt =====
-- What normalisation keeps, and what it makes no difference to.
use secure_remote_code_execu.Prelude.{
  ℕ, ◌≡◌, ◌≢◌, refl, sym, ap, ◌∙◌, List, [], ◌∷◌, map, arith, All, nat_eq,
}
use mathlib.Core.Path.{ap₂}
use secure_remote_code_execu.Prelude.Texts.{Text, join}
use secure_remote_code_execu.PyStr.{
  is_nil, is_space, strip_end, rstrip, replace_crlf, replace_cr, split_newline,
}
use secure_remote_code_execu.PyStr.Strip.{All-strip_end, strip_end_idem}
use secure_remote_code_execu.PyStr.Newlines.{
  newline, Lacks, replace_cr-Lacks, replace_cr_id, replace_crlf_id, All-split_newline,
  split_newline-Lacks, All-join, split_newline-join,
}
use secure_remote_code_execu.PyStr.Tokens.{split-lines}
use secure_remote_code_execu.Grading.Normalizer.{normalize_text, tokenize}

-- The lines of a text, stripped and without the empty ones at the end.
abbrev pub clean_lines : Text → List Text
clean_lines t = strip_end is_nil (map rstrip (split_newline t))

-- The empty text needs no case of its own.
pub normalize_text_lem :
    (s : Text) → normalize_text s ≡ join newline (clean_lines (replace_cr (replace_crlf s)))
unfolding normalize_text is_space
normalize_text_lem [] = refl
normalize_text_lem (c ∷ s) = refl

All-map-rstrip : (P : ℕ → Type 0) (ls : List Text) → All (All P) ls → All (All P) (map rstrip ls)
unfolding rstrip
All-map-rstrip P [] h = tt
All-map-rstrip P (l ∷ ls) h = (All-strip_end is_space P l h.0, All-map-rstrip P ls h.1)

abbrev IsStripped : Text → Type 0
IsStripped l = rstrip l ≡ l

map-rstrip-IsStripped : (ls : List Text) → All IsStripped (map rstrip ls)
map-rstrip-IsStripped [] = tt
map-rstrip-IsStripped (l ∷ ls) =
    (unfold rstrip in strip_end_idem is_space l, map-rstrip-IsStripped ls)

map-rstrip_id : (ls : List Text) → All IsStripped ls → map rstrip ls ≡ ls
map-rstrip_id [] h = refl
map-rstrip_id (l ∷ ls) h = ap₂ ◌∷◌ h.0 (map-rstrip_id ls h.1)

clean_lines-join :
    (ls : List Text)
    → All (Lacks 10) ls
    → All IsStripped ls
    → strip_end is_nil ls ≡ ls
    → clean_lines (join newline ls) ≡ ls
clean_lines-join [] h k e = unfold strip_end rstrip split_newline in refl
clean_lines-join (l ∷ ls) h k e =
    rw (split_newline-join l ls h) (ap (strip_end is_nil) (map-rstrip_id (l ∷ ls) k) ∙ e)

clean_lines-Lacks :
    (c : ℕ) (t : Text) → All (Lacks c) (split_newline t) → All (Lacks c) (clean_lines t)
clean_lines-Lacks c t h =
    All-strip_end is_nil (Lacks c) (map rstrip (split_newline t))
      (All-map-rstrip (λ x. x ≢ c) (split_newline t) h)

clean_lines-clean_lines : (t : Text) → clean_lines (join newline (clean_lines t)) ≡ clean_lines t
clean_lines-clean_lines t =
    clean_lines-join (clean_lines t) (clean_lines-Lacks 10 t (split_newline-Lacks t))
      (All-strip_end is_nil IsStripped (map rstrip (split_newline t))
        (map-rstrip-IsStripped (split_newline t)))
      (strip_end_idem is_nil (map rstrip (split_newline t)))

unify-Lacks : (t : Text) → Lacks 13 t → replace_cr (replace_crlf t) ≡ t
unify-Lacks t h = rw (replace_crlf_id t h) (replace_cr_id t h)

-- Normalising a second time changes nothing.
pub normalize_text_idem : (s : Text) → normalize_text (normalize_text s) ≡ normalize_text s
normalize_text_idem s =
    let t = replace_cr (replace_crlf s) in
    let lines = clean_lines t in
    let unified = unify-Lacks (join newline lines) (
      All-join (λ x. x ≢ 13) newline lines (omega arith, tt)
        (clean_lines-Lacks 13 t
          (All-split_newline (λ x. x ≢ 13) t (replace_cr-Lacks (replace_crlf s))))) in
    ap normalize_text (normalize_text_lem s)
    ∙ normalize_text_lem (join newline lines)
    ∙ ap (λ u. join newline (clean_lines u)) unified
    ∙ ap (join newline) (clean_lines-clean_lines t)
    ∙ sym (normalize_text_lem s)

-- Normalisation keeps the whitespace-separated words of a text.
pub tokenize-normalize_text : (s : Text) → tokenize (normalize_text s) ≡ tokenize s
unfolding tokenize
tokenize-normalize_text s = rw (normalize_text_lem s) (split-lines s)
