-- ===== src/Janitor/Reaped.antt =====
-- Which containers the janitor removes.
use secure_remote_code_execu.Prelude.{
  ℕ, ◌+◌, ◌*◌, ◌<◌, ◌≡◌, ◌≢◌, ◌↔◌, arith, none, Option, refl, ap, sym, ◌∙◌, Bool, true, not,
  Bool-cases, inl, inr, some, List, [], ◌∷◌, map, keep_if,
}
use secure_remote_code_execu.Prelude.Texts.{Text}
use secure_remote_code_execu.Janitor.{
  Container, Clock, older_than, created_dt, is_stale, reap_all, reap_stale_containers,
}

abbrev pub id_of : Container → Text
id_of x = x.id

abbrev pub is_fresh : Clock → ℕ → Container → Bool
is_fresh c lease x = not (is_stale c lease x)

-- A container is older than the lease: its time of creation is given, can be read, and lies more than
-- `lease` seconds before now.
abbrev pub IsOld : Clock → ℕ → Container → Type 0
IsOld c lease x =
    (raw : Text) × (t : ℕ) × (x.created_at ≡ some raw)
    × (raw ≢ [])
    × (c.from_iso raw ≡ some t)
    × (t + lease * 1000000 < c.now)

some_injective : {A : Type 0} (x y : A) → some x ≡ some y → x ≡ y
some_injective x y e = cc (e)

older_than_iff :
    (c : Clock) (lease : ℕ) (o : Option ℕ)
    → (older_than c lease o ≡ true) ↔ ((t : ℕ) × (o ≡ some t) × (t + lease * 1000000 < c.now))
older_than_iff c lease none = (λ h. absurd (cc (h)), λ h. absurd (cc (h.1)))
older_than_iff c lease (some n) = (
  λ h. (n, refl, ground arith),
  λ h.
      let e : n ≡ h.0 = some_injective n h.0 h.1 in
      let l : h.0 + lease * 1000000 < c.now = h.2 in ground (arith, e, l),
)

created_dt_iff :
    (c : Clock) (lease : ℕ) (o : Option Text)
    → (older_than c lease (created_dt c o) ≡ true) ↔ (
        (raw : Text) × (t : ℕ) × (o ≡ some raw)
        × (raw ≢ [])
        × (c.from_iso raw ≡ some t)
        × (t + lease * 1000000 < c.now))
created_dt_iff c lease none = (λ h. absurd (cc (h)), λ h. absurd (cc (h.2)))
created_dt_iff c lease (some []) =
    (λ h. absurd (cc (h)), λ h. absurd (h.3 (sym (some_injective [] h.0 h.2))))
created_dt_iff c lease (some (d ∷ raw)) = (
  λ h.
      let old = (older_than_iff c lease (c.from_iso (d ∷ raw))).0 h in
      (d ∷ raw, old.0, refl, (λ e. absurd (cc (e))), old.1, old.2),
  λ h.
      (older_than_iff c lease (c.from_iso (d ∷ raw))).1
        (h.1, ap c.from_iso (some_injective (d ∷ raw) h.0 h.2) ∙ h.4, h.5),
)

is_stale_iff :
    (c : Clock) (lease : ℕ) (x : Container) → (is_stale c lease x ≡ true) ↔ IsOld c lease x
is_stale_iff c lease x = created_dt_iff c lease x.created_at

module _ (c : Clock) (lease : ℕ) (removes : Container → Bool)
    (all_go : (x : Container) → removes x ≡ true) where
  reap_all-keep_if :
      (xs : List Container)
      → reap_all c lease removes xs
        ≡ (map id_of (keep_if (is_stale c lease) xs), keep_if (is_fresh c lease) xs)
  unfolding reap_all
  reap_all-keep_if [] = refl
  reap_all-keep_if (x ∷ xs) = elim (Bool-cases (is_stale c lease x)) [
    | inl t ↦ simp (t, all_go x) (ap (λ p. (x.id ∷ p.0, p.1)) (reap_all-keep_if xs))
    | inr f ↦ simp (f) (ap (λ p. (p.0, x ∷ p.1)) (reap_all-keep_if xs))
  ]

  nothing_stale :
      (xs : List Container)
      → map id_of (keep_if (is_stale c lease) (keep_if (is_fresh c lease) xs)) ≡ []
  nothing_stale [] = refl
  nothing_stale (x ∷ xs) = elim (Bool-cases (is_stale c lease x)) [
    | inl t ↦ simp (t) (nothing_stale xs)
    | inr f ↦ simp (f) (nothing_stale xs)
  ]

  -- When the engine removes what it is told to: the janitor reaps exactly the containers that are
  -- stale, whether they run or not, leaves the others, and reaps nothing more when it runs again at
  -- the same time. A container is stale exactly if its time of creation is given, can be read, and
  -- lies more than `lease` seconds before now.
  pub reap_stale_containers-keep_if :
      (xs : List Container)
      → ((x : Container) → (is_stale c lease x ≡ true) ↔ IsOld c lease x)
        × ((reap_stale_containers c lease removes (some xs)).0
            ≡ map id_of (keep_if (is_stale c lease) xs))
        × ((reap_stale_containers c lease removes (some xs)).1 ≡ keep_if (is_fresh c lease) xs)
        × ((reap_stale_containers c lease removes
              (some (reap_stale_containers c lease removes (some xs)).1)).0
            ≡ [])
  unfolding reap_stale_containers
  reap_stale_containers-keep_if xs = (
    is_stale_iff c lease,
    ap (λ p. p.0) (reap_all-keep_if xs),
    ap (λ p. p.1) (reap_all-keep_if xs),
    ap (λ p. (reap_all c lease removes p.1).0) (reap_all-keep_if xs)
        ∙ ap (λ p. p.0) (reap_all-keep_if (keep_if (is_fresh c lease) xs))
        ∙ nothing_stale xs,
  )
