-- ===== src/Utf8/Truncation.antt =====
-- Cutting an encoded text to a number of bytes, and decoding what is left of it.
use secure_remote_code_execu.Prelude.{
  ℕ, zero, suc, ◌+◌, ◌-◌, ◌≤◌, ◌<◌, ◌≡◌, refl, ap, ◌∙◌, List, [], ◌∷◌, ◌++◌, leb, length,
  length-append, take, All, arith, leb→le, Bool-cases, inl, inr, if◌then◌else◌,
}
use secure_remote_code_execu.Prelude.Texts.{Text}
use secure_remote_code_execu.Utf8.{encode_char, encode, read_char, decode_from, decode_ignore}
use secure_remote_code_execu.Utf8.Laws.{
  IsScalar, read_char-encode_char, read_char-take, length-encode_char,
}

-- The longest beginning of a text whose encoding has at most `n` bytes.
abbrev pub fit : ℕ → Text → Text
fit n [] = []
fit n (c ∷ s) =
    let size = length (encode_char c) in
    let rest = fit (n - size) s in if leb size n then c ∷ rest else []

take-append_ge {ℓ} :
    {A : Type ℓ} (n : ℕ) (xs ys : List A)
    → length xs ≤ n
    → take n (xs ++ ys) ≡ xs ++ take (n - length xs) ys
take-append_ge n [] ys h = ap (λ k. take k ys) (omega arith)
take-append_ge zero (x ∷ xs) ys h = absurd (omega arith)
take-append_ge (suc n) (x ∷ xs) ys h =
    ap (λ r. x ∷ r) (take-append_ge n xs ys (omega arith) ∙ ap (λ k. xs ++ take k ys) (omega arith))

take-append_lt {ℓ} :
    {A : Type ℓ} (n : ℕ) (xs ys : List A) → n < length xs → take n (xs ++ ys) ≡ take n xs
take-append_lt n [] ys h = absurd (omega arith)
take-append_lt zero (x ∷ xs) ys h = refl
take-append_lt (suc n) (x ∷ xs) ys h = ap (λ r. x ∷ r) (take-append_lt n xs ys (omega arith))

decode_from-round :
    (fuel : ℕ) (bytes : List ℕ)
    → 0 < length bytes
    → decode_from (suc fuel) bytes ≡ (read_char bytes).0 ++ decode_from fuel (read_char bytes).1
unfolding decode_from
decode_from-round fuel [] h = absurd (omega arith)
decode_from-round fuel (a ∷ bytes) h = refl

decode_from-nil : (fuel : ℕ) → decode_from fuel [] ≡ []
unfolding decode_from
decode_from-nil zero = refl
decode_from-nil (suc fuel) = refl

-- Bytes of which a round decodes nothing and leaves nothing.
decode_from-nothing :
    (fuel : ℕ) (bytes : List ℕ) → read_char bytes ≡ ([], []) → decode_from fuel bytes ≡ []
unfolding decode_from
decode_from-nothing zero bytes h = refl
decode_from-nothing (suc fuel) [] h = refl
decode_from-nothing (suc fuel) (a ∷ bytes) h = rw h (decode_from-nil fuel)

-- One round on bytes that begin with a whole character.
decode_from-encode_char :
    (fuel c : ℕ) (r : List ℕ)
    → IsScalar c
    → decode_from (suc fuel) (encode_char c ++ r) ≡ c ∷ decode_from fuel r
decode_from-encode_char fuel c r h =
    decode_from-round fuel (encode_char c ++ r)
      (omega (arith, length-append (encode_char c) r, length-encode_char c))
    ∙ rw (read_char-encode_char c r h)

take-nil {ℓ} : {A : Type ℓ} (n : ℕ) → take {A = A} n [] ≡ []
take-nil zero = refl
take-nil (suc n) = refl

decode_from-first :
    (fuel c : ℕ) (r : List ℕ) (t : Text)
    → IsScalar c
    → length (encode_char c ++ r) ≤ fuel
    → ((f : ℕ) → length r ≤ f → decode_from f r ≡ t)
    → decode_from fuel (encode_char c ++ r) ≡ c ∷ t
decode_from-first zero c r t h k rest =
    absurd (omega (arith, length-append (encode_char c) r, length-encode_char c))
decode_from-first (suc f) c r t h k rest =
    decode_from-encode_char f c r h
    ∙ ap (λ u. c ∷ u)
        (rest f (omega (arith, length-append (encode_char c) r, length-encode_char c)))

-- With a byte of fuel for each byte, a cut encoding decodes to the characters that fit.
decode_from-take :
    (s : Text) (n fuel : ℕ)
    → All IsScalar s
    → length (take n (encode s)) ≤ fuel
    → decode_from fuel (take n (encode s)) ≡ fit n s
unfolding encode
decode_from-take [] n fuel h k = rw (take-nil n) (decode_from-nil fuel)
decode_from-take (c ∷ s) n fuel h k = elim (Bool-cases (leb (length (encode_char c)) n)) [
  | inl whole ↦
      let split = take-append_ge n (encode_char c) (encode s) (ground arith) in
      rw (whole, split)
        (decode_from-first fuel c (take (n - length (encode_char c)) (encode s)) _ h.0
          (rw split at k) (λ f. decode_from-take s (n - length (encode_char c)) f h.1))
  | inr short ↦
      rw (short, take-append_lt n (encode_char c) (encode s) (ground arith))
        (decode_from-nothing fuel (take n (encode_char c)) (read_char-take c n h.0 (ground arith)))
]

-- Decoding the first `n` bytes of an encoded text gives the longest beginning of it that fits.
pub decode_ignore-take :
    (s : Text) (n : ℕ) → All IsScalar s → decode_ignore (take n (encode s)) ≡ fit n s
unfolding decode_ignore
decode_ignore-take s n h = decode_from-take s n (length (take n (encode s))) h (omega arith)

pub length-encode-fit : (n : ℕ) (s : Text) → length (encode (fit n s)) ≤ n
unfolding encode
length-encode-fit n [] = omega arith
length-encode-fit n (c ∷ s) = elim (Bool-cases (leb (length (encode_char c)) n)) [
  | inl whole ↦ rw whole (
      omega (
        arith,
        length-append (encode_char c) (encode (fit (n - length (encode_char c)) s)),
        length-encode-fit (n - length (encode_char c)) s,
        leb→le (length (encode_char c)) n whole,
      ))
  | inr short ↦ rw short (omega arith)
]

pub length-encode-append :
    (s t : Text) → length (encode (s ++ t)) ≡ length (encode s) + length (encode t)
unfolding encode
length-encode-append [] t = omega arith
length-encode-append (c ∷ s) t = omega (
  arith,
  length-append (encode_char c) (encode (s ++ t)),
  length-append (encode_char c) (encode s),
  length-encode-append s t,
)
