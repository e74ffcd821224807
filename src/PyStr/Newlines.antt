-- ===== src/PyStr/Newlines.antt =====
-- Laws of `split("\n")`, of the replacements of carriage returns, and of joining by newlines.
use secure_remote_code_execu.Prelude.{
  Bool, false, if◌then◌else◌, ℕ, ◌≡◌, ◌≢◌, refl, ap, List, [], ◌∷◌, ◌++◌, arith, All, All-append,
  Bool-cases, inl, inr, ◌==◌, nat_eq,
}
use secure_remote_code_execu.Prelude.Texts.{Text, join}
use secure_remote_code_execu.PyStr.{replace_crlf, replace_cr, split_newline, cons_first}

abbrev pub newline : Text
newline = 10 ∷ []

abbrev pub Lacks : ℕ → Text → Type 0
Lacks c s = All (λ x. x ≢ c) s

pub replace_cr-Lacks : (s : Text) → Lacks 13 (replace_cr s)
unfolding replace_cr
replace_cr-Lacks [] = tt
replace_cr-Lacks (c ∷ s) = (ground arith, replace_cr-Lacks s)

pub replace_cr_id : (s : Text) → Lacks 13 s → replace_cr s ≡ s
unfolding replace_cr
replace_cr_id [] h = refl
replace_cr_id (c ∷ s) h = ground (arith, replace_cr_id s h.1)

pub replace_crlf_id : (s : Text) → Lacks 13 s → replace_crlf s ≡ s
unfolding replace_crlf
replace_crlf_id [] h = refl
replace_crlf_id (c ∷ []) h = refl
replace_crlf_id (c ∷ (d ∷ s)) h = ground (arith, replace_crlf_id (d ∷ s) h.1)

abbrev begins_newline : Text → Bool
begins_newline [] = false
begins_newline (c ∷ s) = c == 10

-- All line ends as `\n`: a carriage return before a newline is dropped, and any other is a newline.
unfoldable pub unify_newlines : Text → Text
unify_newlines [] = []
unify_newlines (c ∷ s) =
    let rest = unify_newlines s in
    if c == 13 then (if begins_newline s then rest else 10 ∷ rest) else c ∷ rest

-- The two replacements, one after the other, are the one pass.
pub replace_cr-replace_crlf : (s : Text) → replace_cr (replace_crlf s) ≡ unify_newlines s
unfolding replace_cr replace_crlf unify_newlines
replace_cr-replace_crlf [] = refl
replace_cr-replace_crlf (c ∷ []) = ground arith
replace_cr-replace_crlf (c ∷ (d ∷ s)) =
    ground (arith, replace_cr-replace_crlf s, replace_cr-replace_crlf (d ∷ s))

All-cons_first :
    (P : ℕ → Type 0) (c : ℕ) (ls : List Text) → P c → All (All P) ls → All (All P) (cons_first c ls)
All-cons_first P c [] h k = ((h, tt), tt)
All-cons_first P c (l ∷ ls) h k = ((h, k.0), k.1)

-- What every character satisfies, the characters of the lines satisfy.
pub All-split_newline : (P : ℕ → Type 0) (s : Text) → All P s → All (All P) (split_newline s)
unfolding split_newline
All-split_newline P [] h = (tt, tt)
All-split_newline P (c ∷ s) h = elim (Bool-cases (c == 10)) [
  | inl e ↦ rw e (tt, All-split_newline P s h.1)
  | inr e ↦ rw e (All-cons_first P c (split_newline s) h.0 (All-split_newline P s h.1))
]

pub split_newline-Lacks : (s : Text) → All (Lacks 10) (split_newline s)
unfolding split_newline
split_newline-Lacks [] = (tt, tt)
split_newline-Lacks (c ∷ s) = elim (Bool-cases (c == 10)) [
  | inl e ↦ rw e (tt, split_newline-Lacks s)
  | inr e ↦
      rw e (All-cons_first (λ x. x ≢ 10) c (split_newline s) (ground arith) (split_newline-Lacks s))
]

pub All-join :
    (P : ℕ → Type 0) (sep : Text) (ls : List Text)
    → All P sep
    → All (All P) ls
    → All P (join sep ls)
All-join P sep [] h k = tt
All-join P sep (x ∷ []) h k = k.0
All-join P sep (x ∷ (y ∷ ls)) h k =
    All-append P x (sep ++ join sep (y ∷ ls)) k.0
      (All-append P sep (join sep (y ∷ ls)) h (All-join P sep (y ∷ ls) h k.1))

split_newline-append : (l s : Text) → Lacks 10 l → split_newline (l ++ 10 ∷ s) ≡ l ∷ split_newline s
unfolding split_newline
split_newline-append [] s h = refl
split_newline-append (c ∷ l) s h = ground (arith, split_newline-append l s h.1)

split_newline_line : (l : Text) → Lacks 10 l → split_newline l ≡ l ∷ []
unfolding split_newline
split_newline_line [] h = refl
split_newline_line (c ∷ l) h = ground (arith, split_newline_line l h.1)

-- Splitting undoes joining, for one line or more without a newline in them.
pub split_newline-join :
    (l : Text) (ls : List Text)
    → All (Lacks 10) (l ∷ ls)
    → split_newline (join newline (l ∷ ls)) ≡ l ∷ ls
split_newline-join l [] h = split_newline_line l h.0
split_newline-join l (m ∷ ls) h =
    rw (split_newline-append l (join newline (m ∷ ls)) h.0)
      (ap (λ r. l ∷ r) (split_newline-join m ls h.1))
