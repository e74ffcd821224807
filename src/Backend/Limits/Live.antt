-- ===== src/Backend/Limits/Live.antt =====
-- The entries of a sorted set that are in a window.
use secure_remote_code_execu.Prelude.{
  ℕ, ◌+◌, ◌≤◌, ◌≡◌, refl, ap, false, ◌&&◌, Bool-cases, inl, inr, List, [], ◌∷◌, length, keep_if,
  ltb, leb, ◌==◌, list_eq, nat_eq, arith,
}
use secure_remote_code_execu.Prelude.Texts.{Text}
use secure_remote_code_execu.Prelude.Int.{pos, sub_ℕ, ltb_ℤ}
use secure_remote_code_execu.Backend.Limits.{Entry, has_member}

-- The entries that are not older than the window at a time.
abbrev pub live : ℕ → ℕ → List Entry → List Entry
live w now es = keep_if (λ e. ltb now (e.score + w)) es

-- Those in the window that ends at a time.
abbrev pub within : ℕ → ℕ → List Entry → ℕ
within w t es = length (keep_if (λ e. leb e.score t && ltb t (e.score + w)) es)

-- The calls come in the order of their times.
abbrev pub Ascending : ℕ → List Entry → Type 0
Ascending t [] = Unit
Ascending t (e ∷ es) = (t ≤ e.score) × Ascending e.score es

-- No call has the member of an earlier one.
abbrev pub Distinct : List Entry → List Entry → Type 0
Distinct seen [] = Unit
Distinct seen (e ∷ es) = (has_member e.member seen ≡ false) × Distinct (e ∷ seen) es

pub live-live : (w a b : ℕ) (es : List Entry) → a ≤ b → live w b (live w a es) ≡ live w b es
live-live w a b [] h = refl
live-live w a b (e ∷ es) h = elim (Bool-cases (ltb a (e.score + w))) [
  | inl x ↦ elim (Bool-cases (ltb b (e.score + w))) [
    | inl y ↦ simp (x, y) (ap (λ l. e ∷ l) (live-live w a b es h))
    | inr n ↦ simp (x, n) (live-live w a b es h)
  ]
  | inr n ↦
      let m : ltb b (e.score + w) ≡ false = ground (arith, n, h) in
      simp (n, m) (live-live w a b es h)
]

pub live_cleared :
    (w now : ℕ) (es : List Entry)
    → keep_if (λ e. ltb_ℤ (sub_ℕ now w) (pos e.score)) es ≡ live w now es
live_cleared w now [] = refl
live_cleared w now (e ∷ es) =
    let same : ltb_ℤ (sub_ℕ now w) (pos e.score) ≡ ltb now (e.score + w) = ground arith in
    elim (Bool-cases (ltb now (e.score + w))) [
      | inl t ↦ simp (same, t) (ap (λ l. e ∷ l) (live_cleared w now es))
      | inr f ↦ simp (same, f) (live_cleared w now es)
    ]

pub has_member-live :
    (w now : ℕ) (m : Text) (es : List Entry)
    → has_member m es ≡ false
    → has_member m (live w now es) ≡ false
has_member-live w now m [] h = refl
has_member-live w now m (e ∷ es) h = elim (Bool-cases (e.member == m)) [
  | inl t ↦ absurd (cc (h, t))
  | inr f ↦ elim (Bool-cases (ltb now (e.score + w))) [
    | inl y ↦ simp (y, f) (has_member-live w now m es (simp (f) at h))
    | inr n ↦ simp (n) (has_member-live w now m es (simp (f) at h))
  ]
]

pub within-live : (w now t : ℕ) (es : List Entry) → now ≤ t → within w t es ≤ length (live w now es)
within-live w now t [] h = omega arith
within-live w now t (e ∷ es) h = ground (arith, within-live w now t es h)
