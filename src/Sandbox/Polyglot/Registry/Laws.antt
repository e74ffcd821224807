-- ===== src/Sandbox/Polyglot/Registry/Laws.antt =====
-- What the registry finds.
use secure_remote_code_execu.Prelude.{
  ◌≡◌, ◌↔◌, refl, ap, ◌∙◌, Bool-cases, inl, inr, true, false, Option, none, some, [], ◌∷◌, ◌==◌,
  list_eq, nat_eq, eq_iff, eq_refl, if◌then◌else◌, ok,
}
use secure_remote_code_execu.Prelude.Texts.{Text}
use secure_remote_code_execu.Sandbox.Polyglot.Strategy.{Strategy}
use secure_remote_code_execu.Sandbox.Polyglot.Registry.{
  Dict, find, put, register, ensure, resolve, get, is_supported, strategy_or_error, found,
}

find-put-same {ℓ} : {A : Type ℓ} (key : Text) (v : A) (d : Dict A) → find key (put key v d) ≡ some v
find-put-same key v [] = rw (eq_refl key) refl
find-put-same key v ((k, w) ∷ rest) = elim (Bool-cases (k == key)) [
  | inl e ↦ rw (e) (rw (e) refl)
  | inr n ↦ rw (n) (rw (n) (find-put-same key v rest))
]

find-put-other {ℓ} :
    {A : Type ℓ} (key other : Text) (v : A) (d : Dict A)
    → (key == other) ≡ false
    → find other (put key v d) ≡ find other d
find-put-other key other v [] h = rw (h) refl
find-put-other key other v ((k, w) ∷ rest) h = elim (Bool-cases (k == key)) [
  | inl e ↦ rw (e) (rw (ap (λ z. z == other) ((eq_iff k key).0 e) ∙ h) refl)
  | inr n ↦ rw (n) (ap (λ l. if k == other then some w else l) (find-put-other key other v rest h))
]

found_iff :
    (id : Text) (d : Dict Strategy) (o : Option Strategy)
    → (found o ≡ true) ↔ ((s : Strategy) × (strategy_or_error id d o ≡ ok s))
found_iff id d none = ((λ h. absurd (cc h)), (λ h. absurd (cc h.1)))
found_iff id d (some s) = ((λ h. (s, refl)), (λ h. refl))

ok_of :
    (id : Text) (d e : Dict Strategy) (o : Option Strategy) (t : Strategy)
    → strategy_or_error id d o ≡ ok t
    → strategy_or_error id e o ≡ ok t
ok_of id d e none t h = absurd (cc h)
ok_of id d e (some s) t h = h

ensure-put :
    (lower : Text → Text) (executable key : Text) (s : Strategy) (d : Dict Strategy)
    → ensure lower executable (put key s d) ≡ put key s d
unfolding ensure
ensure-put lower executable key s [] = refl
ensure-put lower executable key s ((k, w) ∷ rest) = elim (Bool-cases (k == key)) [
  | inl e ↦ rw (e) refl
  | inr n ↦ rw (n) refl
]

module _ (lower : Text → Text) (executable : Text) where
  -- Whatever has been registered: `is_supported` says yes for a text exactly if `get` returns a
  -- strategy for it and does not raise.
  pub is_supported_iff :
      (id : Text) (strategies : Dict Strategy)
      → ((is_supported lower executable id strategies).0 ≡ true)
        ↔ ((s : Strategy) × ((get lower executable id strategies).0 ≡ ok s))
  unfolding is_supported get
  is_supported_iff id strategies =
      found_iff id (ensure lower executable strategies)
        (find (resolve lower id) (ensure lower executable strategies))

  -- For a language whose identifier and name resolve to the same key: after its strategy has been
  -- registered among any others, `get` of the name returns it.
  pub get-register :
      (s : Strategy) (id : Text) (strategies : Dict Strategy)
      → resolve lower id ≡ lower s.language_id
      → (get lower executable id (register lower s strategies)).0 ≡ ok s
  unfolding get register ensure
  get-register s id strategies h =
      ap (λ d. strategy_or_error id d (find (resolve lower id) d))
        (ensure-put lower executable (lower s.language_id) s strategies)
      ∙ ap
          (λ key.
            strategy_or_error id (put (lower s.language_id) s strategies)
              (find key (put (lower s.language_id) s strategies)))
          h
      ∙ ap (strategy_or_error id (put (lower s.language_id) s strategies))
          (find-put-same (lower s.language_id) s strategies)

  -- Registering a strategy does not change what `get` returns for a text that resolves to another
  -- key, if it returned a strategy before and one at least was registered.
  pub get-register_other :
      (s t r : Strategy) (id k : Text) (strategies : Dict Strategy)
      → (lower s.language_id == resolve lower id) ≡ false
      → (get lower executable id ((k, r) ∷ strategies)).0 ≡ ok t
      → (get lower executable id (register lower s ((k, r) ∷ strategies))).0 ≡ ok t
  unfolding get register ensure
  get-register_other s t r id k strategies h g =
      ap (λ d. strategy_or_error id d (find (resolve lower id) d))
        (ensure-put lower executable (lower s.language_id) s ((k, r) ∷ strategies))
      ∙ ap (strategy_or_error id (put (lower s.language_id) s ((k, r) ∷ strategies)))
          (find-put-other (lower s.language_id) (resolve lower id) s ((k, r) ∷ strategies) h)
      ∙ ok_of id ((k, r) ∷ strategies) (put (lower s.language_id) s ((k, r) ∷ strategies)) _ t g
