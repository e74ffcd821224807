-- ===== src/Utf8.antt =====
-- UTF-8, as `str.encode("utf-8")` writes it, and as `bytes.decode("utf-8")` reads it with
-- errors="ignore" and errors="replace".
pub mod Laws
pub mod Truncation
pub mod Replace
use secure_remote_code_execu.Prelude.{
  ℕ, zero, suc, ◌+◌, ◌-◌, ◌*◌, ◌/◌, ◌%◌, Bool, ◌&&◌, List, [], ◌∷◌, ◌++◌, ltb, leb, length, ◌==◌,
  nat_eq, if◌then◌else◌,
}
use secure_remote_code_execu.Prelude.Texts.{Text}

unfoldable pub encode_char : ℕ → List ℕ
encode_char c =
    if ltb c 128
    then c ∷ []
    else if ltb c 2048
    then (192 + c / 64) ∷ (128 + c % 64) ∷ []
    else if ltb c 65536
    then (224 + c / 4096) ∷ (128 + c / 64 % 64) ∷ (128 + c % 64) ∷ []
    else (240 + c / 262144) ∷ (128 + c / 4096 % 64) ∷ (128 + c / 64 % 64) ∷ (128 + c % 64) ∷ []

-- `text.encode("utf-8")`, for a text without surrogates.
unfoldable pub encode : Text → List ℕ
encode [] = []
encode (c ∷ s) = encode_char c ++ encode s

unfoldable pub is_continuation : ℕ → Bool
is_continuation b = leb 128 b && leb b 191

-- The second bytes that may follow a lead byte of three.
unfoldable pub second_of_three : ℕ → ℕ → Bool
second_of_three a b = leb (if a == 224 then 160 else 128) b && leb b (if a == 237 then 159 else 191)

-- The second bytes that may follow a lead byte of four.
unfoldable pub second_of_four : ℕ → ℕ → Bool
second_of_four a b = leb (if a == 240 then 144 else 128) b && leb b (if a == 244 then 143 else 191)

-- What one round reads from the front: the characters that it decodes, and the bytes that it
-- leaves. The longest beginning of a character that goes wrong, or stops, is dropped.
abbrev pub Round : Type 0
Round = Text × List ℕ

unfoldable pub read_two : ℕ → List ℕ → Round
read_two a [] = ([], [])
read_two a (b ∷ r) =
    if is_continuation b then (((a - 192) * 64 + (b - 128)) ∷ [], r) else ([], b ∷ r)

unfoldable pub read_three : ℕ → List ℕ → Round
read_three a [] = ([], [])
read_three a (b ∷ []) = ([], if second_of_three a b then [] else b ∷ [])
read_three a (b ∷ (c ∷ r)) =
    if second_of_three a b
    then (if is_continuation c
        then (((a - 224) * 4096 + (b - 128) * 64 + (c - 128)) ∷ [], r)
        else ([], c ∷ r))
    else ([], b ∷ (c ∷ r))

unfoldable pub read_four : ℕ → List ℕ → Round
read_four a [] = ([], [])
read_four a (b ∷ []) = ([], if second_of_four a b then [] else b ∷ [])
read_four a (b ∷ (c ∷ [])) =
    ([], if second_of_four a b then (if is_continuation c then [] else c ∷ []) else b ∷ (c ∷ []))
read_four a (b ∷ (c ∷ (d ∷ r))) =
    if second_of_four a b
    then (if is_continuation c
        then (if is_continuation d
            then (((a - 240) * 262144 + (b - 128) * 4096 + (c - 128) * 64 + (d - 128)) ∷ [], r)
            else ([], d ∷ r))
        else ([], c ∷ (d ∷ r)))
    else ([], b ∷ (c ∷ (d ∷ r)))

unfoldable pub read_char : List ℕ → Round
unfolding read_two read_three read_four is_continuation second_of_three second_of_four
read_char [] = ([], [])
read_char (a ∷ r) =
    if ltb a 128
    then (a ∷ [], r)
    else if leb 194 a && leb a 223
    then read_two a r
    else if leb 224 a && leb a 239
    then read_three a r
    else if leb 240 a && leb a 244
    then read_four a r
    else ([], r)

-- Each round reads one byte or more, so the length is fuel enough.
decode_from : ℕ → List ℕ → Text
unfolding read_char
decode_from zero bytes = []
decode_from (suc fuel) [] = []
decode_from (suc fuel) (a ∷ bytes) =
    let (read, rest) = read_char (a ∷ bytes) in read ++ decode_from fuel rest

-- `bytes.decode("utf-8", errors="ignore")`
unfoldable pub decode_ignore : List ℕ → Text
unfolding decode_from
decode_ignore bytes = decode_from (length bytes) bytes

-- What cannot be decoded is replaced by U+FFFD, once in each round.
abbrev pub or_replacement : Text → Text
or_replacement [] = 65533 ∷ []
or_replacement (c ∷ t) = c ∷ t

replace_from : ℕ → List ℕ → Text
unfolding read_char
replace_from zero bytes = []
replace_from (suc fuel) [] = []
replace_from (suc fuel) (a ∷ bytes) =
    let (read, rest) = read_char (a ∷ bytes) in or_replacement read ++ replace_from fuel rest

-- `bytes.decode("utf-8", errors="replace")`
unfoldable pub decode_replace : List ℕ → Text
unfolding replace_from
decode_replace bytes = replace_from (length bytes) bytes
