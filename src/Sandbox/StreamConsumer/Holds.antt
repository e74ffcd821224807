-- ===== src/Sandbox/StreamConsumer/Holds.antt =====
-- What a consumer holds of what a program has written, and the facts about texts that this needs.
use mathlib.Core.List.{append_assoc}
use secure_remote_code_execu.Prelude.{
  ℕ, ◌+◌, ◌-◌, ◌≤◌, ◌<◌, ◌≡◌, refl, ap, sym, ◌∙◌, true, false, List, [], ◌∷◌, ◌++◌, length, All,
  leb, Bool-cases, inl, inr,
}
use secure_remote_code_execu.Prelude.Texts.{Text, join}
use secure_remote_code_execu.Utf8.{encode_char}
use secure_remote_code_execu.Utf8.Laws.{IsScalar}
use secure_remote_code_execu.Utf8.Truncation.{fit, length-encode-append}
use secure_remote_code_execu.Sandbox.StreamConsumer.{
  StreamConsumer, byte_size, consume_stdout, consume_stderr, get_full_stdout, get_full_stderr,
}

-- A chunk that a pump reads, from one of the two streams.
pub data Chunk : Type 0 where
  out err : Text → Chunk

abbrev pub text_of : Chunk → Text
text_of (out t) = t
text_of (err t) = t

abbrev pub IsText : Chunk → Type 0
IsText c = All IsScalar (text_of c)

unfoldable pub consume : Text → Chunk → StreamConsumer → StreamConsumer
consume now (out t) c = (consume_stdout now t c).1
consume now (err t) c = (consume_stderr now t c).1

unfoldable pub consume_all : Text → List Chunk → StreamConsumer → StreamConsumer
consume_all now [] c = c
consume_all now (x ∷ xs) c = consume_all now xs (consume now x c)

-- All that the program wrote to one stream.
abbrev pub written_out : List Chunk → Text
written_out [] = []
written_out (out t ∷ xs) = t ++ written_out xs
written_out (err t ∷ xs) = written_out xs

abbrev pub written_err : List Chunk → Text
written_err [] = []
written_err (out t ∷ xs) = written_err xs
written_err (err t ∷ xs) = t ++ written_err xs

abbrev pub IsPrefix : Text → Text → Type 0
IsPrefix s t = (r : Text) × (s ++ r ≡ t)

-- What a consumer with the cap `m` holds after the texts `o` and `e` were written.
pub record Holds (m : ℕ) (o e : Text) (c : StreamConsumer) : Type 0 where
  pub cap : c.max_bytes ≡ m
  pub below : c.total_bytes ≤ m
  pub bytes : byte_size (get_full_stdout c) + byte_size (get_full_stderr c) ≤ c.total_bytes
  pub open_out : c.limit_exceeded ≡ false → get_full_stdout c ≡ o
  pub open_err : c.limit_exceeded ≡ false → get_full_stderr c ≡ e
  pub open_total : c.limit_exceeded ≡ false → c.total_bytes ≡ byte_size o + byte_size e
  pub out_prefix : IsPrefix (get_full_stdout c) o
  pub err_prefix : IsPrefix (get_full_stderr c) e
  pub closed : c.limit_exceeded ≡ true → m < byte_size o + byte_size e

pub join-snoc : (xs : List Text) (t : Text) → join [] (xs ++ t ∷ []) ≡ join [] xs ++ t
join-snoc [] t = refl
join-snoc (x ∷ []) t = refl
join-snoc (x ∷ (y ∷ xs)) t =
    rw (append_assoc x (join [] (y ∷ xs)) t) (ap (λ r. x ++ r) (join-snoc (y ∷ xs) t))

pub fit-IsPrefix : (n : ℕ) (s : Text) → IsPrefix (fit n s) s
fit-IsPrefix n [] = ([], refl)
fit-IsPrefix n (c ∷ s) = elim (Bool-cases (leb (length (encode_char c)) n)) [
  | inl whole ↦
      let (r, e) = fit-IsPrefix (n - length (encode_char c)) s in rw whole (r, ap (λ x. c ∷ x) e)
  | inr short ↦ rw short (c ∷ s, refl)
]

pub IsPrefix-append : (s t u : Text) → IsPrefix s t → IsPrefix s (t ++ u)
IsPrefix-append s t u (r, e) = (r ++ u, sym (append_assoc s r u) ∙ ap (λ x. x ++ u) e)

pub append-IsPrefix : (s t u : Text) → IsPrefix t u → IsPrefix (s ++ t) (s ++ u)
append-IsPrefix s t u (r, e) = (r, append_assoc s t r ∙ ap (λ x. s ++ x) e)

pub byte_size-append : (s t : Text) → byte_size (s ++ t) ≡ byte_size s + byte_size t
byte_size-append s t = length-encode-append s t
