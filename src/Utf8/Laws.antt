-- ===== src/Utf8/Laws.antt =====
-- Reading back what `encode_char` writes, whole or cut short.
use secure_remote_code_execu.Prelude.{
  ℕ, zero, suc, ◌+◌, ◌-◌, ◌*◌, ◌/◌, ◌%◌, ◌≤◌, ◌<◌, ◌≡◌, ap, ◌∙◌, ◌⊎◌, inl, inr, refl, true, List,
  [], ◌∷◌, ◌++◌, ltb, length, take, arith, Bool-cases,
}
use secure_remote_code_execu.Utf8.{
  encode_char, read_char, read_two, read_three, read_four, is_continuation, second_of_three,
  second_of_four,
}

-- The code points that UTF-8 can write: no surrogates.
abbrev pub IsScalar : ℕ → Type 0
IsScalar c = (c < 55296) ⊎ ((57344 ≤ c) × (c < 1114112))

continues : (n : ℕ) → n < 64 → is_continuation (128 + n) ≡ true
unfolding is_continuation
continues n h = ground arith

three_second :
    (c : ℕ)
    → 2048 ≤ c
    → c < 65536
    → IsScalar c
    → second_of_three (224 + c / 4096) (128 + c / 64 % 64) ≡ true
unfolding second_of_three
three_second c l u h = ground arith

four_second :
    (c : ℕ)
    → 65536 ≤ c
    → c < 1114112
    → second_of_four (240 + c / 262144) (128 + c / 4096 % 64) ≡ true
unfolding second_of_four
four_second c l u = ground arith

-- Which reader a lead byte chooses.
read_char-two : (a : ℕ) (r : List ℕ) → 194 ≤ a → a ≤ 223 → read_char (a ∷ r) ≡ read_two a r
unfolding read_char
read_char-two a r l u = ground arith

read_char-three : (a : ℕ) (r : List ℕ) → 224 ≤ a → a ≤ 239 → read_char (a ∷ r) ≡ read_three a r
unfolding read_char
read_char-three a r l u = ground arith

read_char-four : (a : ℕ) (r : List ℕ) → 240 ≤ a → a ≤ 244 → read_char (a ∷ r) ≡ read_four a r
unfolding read_char
read_char-four a r l u = ground arith

-- What a reader makes of well-formed bytes.
read_two_lem :
    (a b : ℕ) (r : List ℕ)
    → is_continuation b ≡ true
    → read_two a (b ∷ r) ≡ (((a - 192) * 64 + (b - 128)) ∷ [], r)
unfolding read_two
read_two_lem a b r h = rw h

read_three_lem :
    (a b c : ℕ) (r : List ℕ)
    → second_of_three a b ≡ true
    → is_continuation c ≡ true
    → read_three a (b ∷ (c ∷ r)) ≡ (((a - 224) * 4096 + (b - 128) * 64 + (c - 128)) ∷ [], r)
unfolding read_three
read_three_lem a b c r h k = rw (h, k)

read_four_lem :
    (a b c d : ℕ) (r : List ℕ)
    → second_of_four a b ≡ true
    → is_continuation c ≡ true
    → is_continuation d ≡ true
    → read_four a (b ∷ (c ∷ (d ∷ r)))
      ≡ (((a - 240) * 262144 + (b - 128) * 4096 + (c - 128) * 64 + (d - 128)) ∷ [], r)
unfolding read_four
read_four_lem a b c d r h k l = rw (h, k, l)

-- How long the encoding of a character is, and of which bytes.
data Encoding (c : ℕ) : Type 0 where
  one : c < 128 → encode_char c ≡ c ∷ [] → Encoding c
  two : 128 ≤ c → c < 2048 → encode_char c ≡ (192 + c / 64) ∷ (128 + c % 64) ∷ [] → Encoding c
  three :
      2048 ≤ c
      → c < 65536
      → encode_char c ≡ (224 + c / 4096) ∷ (128 + c / 64 % 64) ∷ (128 + c % 64) ∷ []
      → Encoding c
  four :
      65536 ≤ c
      → encode_char c
        ≡ (240 + c / 262144) ∷ (128 + c / 4096 % 64) ∷ (128 + c / 64 % 64) ∷ (128 + c % 64) ∷ []
      → Encoding c

encoding : (c : ℕ) → Encoding c
unfolding encode_char
encoding c = elim (Bool-cases (ltb c 128)) [
  | inl a ↦ one (ground arith) (rw a)
  | inr a ↦ elim (Bool-cases (ltb c 2048)) [
    | inl b ↦ two (ground arith) (ground arith) (rw (a, b))
    | inr b ↦ elim (Bool-cases (ltb c 65536)) [
      | inl d ↦ three (ground arith) (ground arith) (rw (a, b, d))
      | inr d ↦ four (ground arith) (rw (a, b, d))
    ]
  ]
]

scalar_below : (c : ℕ) → IsScalar c → c < 1114112
scalar_below c (inl h) = omega arith
scalar_below c (inr h) = h.1

read_one : (c : ℕ) (r : List ℕ) → c < 128 → read_char (c ∷ r) ≡ (c ∷ [], r)
unfolding read_char
read_one c r h = ground arith

-- Reading a whole character, whatever bytes follow.
pub read_char-encode_char :
    (c : ℕ) (r : List ℕ) → IsScalar c → read_char (encode_char c ++ r) ≡ (c ∷ [], r)
read_char-encode_char c r h = elim (encoding c) [
  | one l e ↦ rw e (read_one c r l)
  | two l u e ↦ rw e (
      read_char-two (192 + c / 64) _ (omega arith) (omega arith)
      ∙ read_two_lem (192 + c / 64) (128 + c % 64) r (continues (c % 64) (omega arith))
      ∙ ap (λ x. (x ∷ [], r)) (omega arith))
  | three l u e ↦ rw e (
      read_char-three (224 + c / 4096) _ (omega arith) (omega arith)
      ∙ read_three_lem (224 + c / 4096) (128 + c / 64 % 64) (128 + c % 64) r (three_second c l u h)
          (continues (c % 64) (omega arith))
      ∙ ap (λ x. (x ∷ [], r)) (omega arith))
  | four l e ↦ rw e (
      read_char-four (240 + c / 262144) _ (omega arith) (omega (arith, scalar_below c h))
      ∙ read_four_lem (240 + c / 262144) (128 + c / 4096 % 64) (128 + c / 64 % 64) (128 + c % 64) r
          (four_second c l (scalar_below c h)) (continues (c / 64 % 64) (omega arith))
          (continues (c % 64) (omega arith))
      ∙ ap (λ x. (x ∷ [], r)) (omega arith))
]

cut_one : (c n : ℕ) → n < 1 → read_char (take n (c ∷ [])) ≡ ([], [])
unfolding read_char
cut_one c zero h = refl
cut_one c (suc n) h = absurd (omega arith)

cut_two : (a b n : ℕ) → 194 ≤ a → a ≤ 223 → n < 2 → read_char (take n (a ∷ b ∷ [])) ≡ ([], [])
cut_two a b zero l u h = unfold read_char in refl
cut_two a b (suc zero) l u h = unfold read_two in read_char-two a [] l u
cut_two a b (suc (suc n)) l u h = absurd (omega arith)

cut_three :
    (a b c n : ℕ)
    → 224 ≤ a
    → a ≤ 239
    → second_of_three a b ≡ true
    → n < 3
    → read_char (take n (a ∷ b ∷ c ∷ [])) ≡ ([], [])
cut_three a b c zero l u v h = unfold read_char in refl
cut_three a b c (suc zero) l u v h = unfold read_three in read_char-three a [] l u
cut_three a b c (suc (suc zero)) l u v h =
    read_char-three a (b ∷ []) l u ∙ unfold read_three in rw v
cut_three a b c (suc (suc (suc n))) l u v h = absurd (omega arith)

cut_four :
    (a b c d n : ℕ)
    → 240 ≤ a
    → a ≤ 244
    → second_of_four a b ≡ true
    → is_continuation c ≡ true
    → n < 4
    → read_char (take n (a ∷ b ∷ c ∷ d ∷ [])) ≡ ([], [])
cut_four a b c d zero l u v w h = unfold read_char in refl
cut_four a b c d (suc zero) l u v w h = unfold read_four in read_char-four a [] l u
cut_four a b c d (suc (suc zero)) l u v w h =
    read_char-four a (b ∷ []) l u ∙ unfold read_four in rw v
cut_four a b c d (suc (suc (suc zero))) l u v w h =
    read_char-four a (b ∷ (c ∷ [])) l u ∙ unfold read_four in rw (v, w)
cut_four a b c d (suc (suc (suc (suc n)))) l u v w h = absurd (omega arith)

-- Reading a character cut short: nothing is decoded, and nothing is left.
pub read_char-take :
    (c n : ℕ)
    → IsScalar c
    → n < length (encode_char c)
    → read_char (take n (encode_char c)) ≡ ([], [])
read_char-take c n h short = elim (encoding c) [
  | one l e ↦ rw e (cut_one c n (rw e at short))
  | two l u e ↦ rw e (cut_two _ _ n (omega arith) (omega arith) (rw e at short))
  | three l u e ↦
      rw e (cut_three _ _ _ n (omega arith) (omega arith) (three_second c l u h) (rw e at short))
  | four l e ↦ rw e (
      cut_four _ _ _ _ n (omega arith) (omega (arith, scalar_below c h))
        (four_second c l (scalar_below c h)) (continues (c / 64 % 64) (omega arith))
        (rw e at short))
]

-- A character takes one byte or more.
pub length-encode_char : (c : ℕ) → 0 < length (encode_char c)
length-encode_char c = elim (encoding c) [
  | one l e ↦ rw e (omega arith)
  | two l u e ↦ rw e (omega arith)
  | three l u e ↦ rw e (omega arith)
  | four l e ↦ rw e (omega arith)
]
