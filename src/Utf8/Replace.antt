-- ===== src/Utf8/Replace.antt =====
-- Decoding a whole encoded text replaces nothing.
use mathlib.Core.List.{append_assoc}
use secure_remote_code_execu.Prelude.{
  ℕ, zero, suc, ◌≤◌, ◌<◌, ◌≡◌, refl, ap, ◌∙◌, List, [], ◌∷◌, ◌++◌, length, length-append, All,
  arith,
}
use secure_remote_code_execu.Prelude.Texts.{Text}
use secure_remote_code_execu.Utf8.{
  encode_char, encode, read_char, or_replacement, replace_from, decode_replace,
}
use secure_remote_code_execu.Utf8.Laws.{IsScalar, read_char-encode_char, length-encode_char}

replace_from-round :
    (fuel : ℕ) (bytes : List ℕ)
    → 0 < length bytes
    → replace_from (suc fuel) bytes
      ≡ or_replacement (read_char bytes).0 ++ replace_from fuel (read_char bytes).1
unfolding replace_from
replace_from-round fuel [] h = absurd (omega arith)
replace_from-round fuel (a ∷ bytes) h = refl

replace_from-nil : (fuel : ℕ) → replace_from fuel [] ≡ []
unfolding replace_from
replace_from-nil zero = refl
replace_from-nil (suc fuel) = refl

replace_from-encode :
    (fuel : ℕ) (t : Text)
    → All IsScalar t
    → length (encode t) ≤ fuel
    → replace_from fuel (encode t) ≡ t
unfolding encode
replace_from-encode fuel [] h k = replace_from-nil fuel
replace_from-encode zero (c ∷ t) h k =
    absurd (omega (arith, length-append (encode_char c) (encode t), length-encode_char c))
replace_from-encode (suc fuel) (c ∷ t) h k =
    let size = length-append (encode_char c) (encode t) in
    let some_bytes = length-encode_char c in
    replace_from-round fuel (encode_char c ++ encode t) (omega (arith, size, some_bytes))
    ∙ rw (read_char-encode_char c (encode t) h.0)
        (ap (λ l. c ∷ l) (replace_from-encode fuel t h.1 (omega (arith, size, some_bytes))))

pub decode_replace-encode : (t : Text) → All IsScalar t → decode_replace (encode t) ≡ t
unfolding decode_replace
decode_replace-encode t h = replace_from-encode (length (encode t)) t h (omega arith)

pub encode-append : (s t : Text) → encode (s ++ t) ≡ encode s ++ encode t
unfolding encode
encode-append [] t = refl
encode-append (c ∷ s) t = ap (λ l. encode_char c ++ l) (encode-append s t) ∙ simp (append_assoc)
