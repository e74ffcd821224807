-- ===== src/Grading/Normalizer/Endings.antt =====
-- The conventions for ending a line make no difference to the normal form.
use secure_remote_code_execu.Prelude.{
  ℕ, false, Bool-cases, inl, inr, ◌≡◌, refl, ap, ◌∙◌, sym, [], ◌∷◌, arith, if◌then◌else◌, ◌==◌,
  nat_eq,
}
use secure_remote_code_execu.Prelude.Texts.{Text, join}
use secure_remote_code_execu.PyStr.{replace_crlf, replace_cr}
use secure_remote_code_execu.PyStr.Newlines.{newline, Lacks, replace_cr_id, replace_crlf_id}
use secure_remote_code_execu.Grading.Normalizer.{normalize_text}
use secure_remote_code_execu.Grading.Normalizer.Laws.{clean_lines, normalize_text_lem}

-- How the lines of a text end: LF, CR LF, or CR alone.
pub data Ending : Type 0 where
  lf crlf cr : Ending

abbrev pub newline_as : Ending → Text → Text
newline_as lf s = 10 ∷ s
newline_as crlf s = 13 ∷ (10 ∷ s)
newline_as cr s = 13 ∷ s

-- The text with each newline written by the given convention.
abbrev pub with_ending : Ending → Text → Text
with_ending e [] = []
with_ending e (c ∷ s) =
    let rest = with_ending e s in if c == 10 then newline_as e rest else c ∷ rest

-- A character that is no carriage return stands before the rest.
replace_crlf_other :
    (c : ℕ) (s : Text) → (c == 13) ≡ false → replace_crlf (c ∷ s) ≡ c ∷ replace_crlf s
unfolding replace_crlf
replace_crlf_other c [] h = refl
replace_crlf_other c (d ∷ s) h = ground arith

replace_crlf_pair : (s : Text) → replace_crlf (13 ∷ (10 ∷ s)) ≡ 10 ∷ replace_crlf s
unfolding replace_crlf
replace_crlf_pair s = refl

replace_crlf_no_lf : (s : Text) → Lacks 10 s → replace_crlf s ≡ s
unfolding replace_crlf
replace_crlf_no_lf [] h = refl
replace_crlf_no_lf (c ∷ []) h = refl
replace_crlf_no_lf (c ∷ (d ∷ s)) h = ground (arith, replace_crlf_no_lf (d ∷ s) h.1)

with_ending_cr-Lacks : (s : Text) → Lacks 10 (with_ending cr s)
with_ending_cr-Lacks [] = tt
with_ending_cr-Lacks (c ∷ s) = elim (Bool-cases (c == 10)) [
  | inl e ↦ rw e (omega arith, with_ending_cr-Lacks s)
  | inr e ↦ rw e (ground arith, with_ending_cr-Lacks s)
]

replace_cr-with_ending_cr : (s : Text) → Lacks 13 s → replace_cr (with_ending cr s) ≡ s
unfolding replace_cr
replace_cr-with_ending_cr [] h = refl
replace_cr-with_ending_cr (c ∷ s) h = ground (arith, replace_cr-with_ending_cr s h.1)

with_ending_lf : (s : Text) → with_ending lf s ≡ s
with_ending_lf [] = refl
with_ending_lf (c ∷ s) = ground (arith, with_ending_lf s)

replace_crlf-with_ending_crlf : (s : Text) → Lacks 13 s → replace_crlf (with_ending crlf s) ≡ s
replace_crlf-with_ending_crlf [] h = unfold replace_crlf in refl
replace_crlf-with_ending_crlf (c ∷ s) h = ground (
  arith,
  replace_crlf_pair (with_ending crlf s),
  replace_crlf_other c (with_ending crlf s),
  replace_crlf-with_ending_crlf s h.1,
)

unify-with_ending :
    (e : Ending) (s : Text) → Lacks 13 s → replace_cr (replace_crlf (with_ending e s)) ≡ s
unify-with_ending lf s h =
    ap (λ t. replace_cr (replace_crlf t)) (with_ending_lf s)
    ∙ ap replace_cr (replace_crlf_id s h)
    ∙ replace_cr_id s h
unify-with_ending crlf s h = ap replace_cr (replace_crlf-with_ending_crlf s h) ∙ replace_cr_id s h
unify-with_ending cr s h =
    ap replace_cr (replace_crlf_no_lf (with_ending cr s) (with_ending_cr-Lacks s))
    ∙ replace_cr-with_ending_cr s h

-- A text without carriage returns has the normal form that it has with its newlines written in
-- any of the three conventions.
pub normalize_text-with_ending :
    (e : Ending) (s : Text) → Lacks 13 s → normalize_text (with_ending e s) ≡ normalize_text s
normalize_text-with_ending e s h =
    normalize_text_lem (with_ending e s)
    ∙ ap (λ t. join newline (clean_lines t))
        (unify-with_ending e s h ∙ sym (ap replace_cr (replace_crlf_id s h) ∙ replace_cr_id s h))
    ∙ sym (normalize_text_lem s)
