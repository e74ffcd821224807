-- ===== src/Streaming/Room/Samples.antt =====
-- A codec for objects that writes the lengths of keys and values, and a token for each user.
use secure_remote_code_execu.Prelude.{
  ℕ, zero, suc, ◌≡◌, refl, ap, Option, none, some, [], ◌∷◌, ◌++◌, length, take, drop,
}
use secure_remote_code_execu.Prelude.Texts.{Text}
use secure_remote_code_execu.Streaming.Samples.{take-append, drop-append}
use secure_remote_code_execu.Streaming.Room.{
  SocketClaims, Value, str, raw, Object, Loaded, object, undecodable, ObjectCodec,
}

abbrev tag : Value → ℕ
tag (str t) = 0
tag (raw t) = 1

abbrev written : Value → Text
written (str t) = t
written (raw t) = t

abbrev value_of : ℕ → Text → Value
value_of zero t = str t
value_of (suc n) t = raw t

value_of-tag : (v : Value) → value_of (tag v) (written v) ≡ v
value_of-tag (str t) = refl
value_of-tag (raw t) = refl

abbrev write_items : Object → Text
write_items [] = []
write_items ((k, v) ∷ o) =
    length k ∷ tag v ∷ length (written v) ∷ (k ++ (written v ++ write_items o))

-- At most as many items as the number says.
pub read_items : ℕ → Text → Object
read_items zero t = []
read_items (suc n) [] = []
read_items (suc n) (a ∷ []) = []
read_items (suc n) (a ∷ (b ∷ [])) = []
read_items (suc n) (a ∷ (b ∷ (c ∷ t))) =
    (take a t, value_of b (take c (drop a t))) ∷ read_items n (drop c (drop a t))

pub read_items-write_items : (o : Object) → read_items (length o) (write_items o) ≡ o
unfolding read_items
read_items-write_items [] = refl
read_items-write_items ((k, v) ∷ o) = simp (
  take-append k (written v ++ write_items o),
  drop-append k (written v ++ write_items o),
  take-append (written v) (write_items o),
  drop-append (written v) (write_items o),
  value_of-tag v,
  read_items-write_items o,
)

abbrev load : Text → Loaded
load [] = undecodable
load (n ∷ t) = object (read_items n t)

abbrev pub objects : ObjectCodec
objects = record {
  dumps = λ o. length o ∷ write_items o;
  loads = load;
  loads-dumps = λ o. (o, ap object (read_items-write_items o), λ k. refl);
}

-- A token is the user that it is for.
abbrev pub decode : Text → Option SocketClaims
decode t = some (record { sub = some t; email = none })
