-- ===== src/Backend/Limits/Window.antt =====
-- How many requests of a client one call after the other go through in a window.
use secure_remote_code_execu.Prelude.{
  ℕ, ◌+◌, ◌≤◌, ◌<◌, ◌≡◌, refl, ap, sym, ◌∙◌, true, false, Bool-cases, inl, inr, List, [], ◌∷◌,
  length, ltb, leb, ◌==◌, list_eq, nat_eq, arith,
}
use secure_remote_code_execu.Prelude.Texts.{Text}
use secure_remote_code_execu.Prelude.Int.{sub_ℕ}
use secure_remote_code_execu.Backend.Limits.{
  Entry, SortedSets, has_member, SortedSetsLaws, RateLimiter, Request, limit_key, Verdict, admitted,
  limited, record_request, limit_request,
}
use secure_remote_code_execu.Backend.Limits.Live.{
  live, within, Ascending, Distinct, live-live, live_cleared, has_member-live, within-live,
}

-- The requests that go on, newest first, and the server, after a call.
abbrev pub note : {Db : Type 0} → Entry → List Entry → Verdict × Db → List Entry × Db
note e gone_on (admitted, db) = (e ∷ gone_on, db)
note e gone_on (limited retry, db) = (gone_on, db)

module _ (r : SortedSets) (l : RateLimiter) (q : Request) where
  -- The calls of a client, one after the other, while Redis answers.
  abbrev pub serve : List Entry → List Entry × r.Db → List Entry × r.Db
  serve [] s = s
  serve (e ∷ es) (gone_on, db) = serve es (note e gone_on (limit_request r l q e true true db))

  -- What is true between two calls: the set holds the live ones of the requests that went on.
  record Inv (seen : List Entry) (last : ℕ) (s : List Entry × r.Db) : Type 0 where
    live_ones :
        live l.window_seconds last s.0 ≡ live l.window_seconds last (r.entries (limit_key l q) s.1)
    bound : (t : ℕ) → within l.window_seconds t s.0 ≤ l.max_requests
    members :
        (m : Text)
        → has_member m seen ≡ false
        → has_member m (r.entries (limit_key l q) s.1) ≡ false

  module _ (laws : SortedSetsLaws r) where
    cleared : ℕ → r.Db → r.Db
    cleared now db = r.zremrangebyscore (limit_key l q) (sub_ℕ now l.window_seconds) db

    entries-cleared :
        (now : ℕ) (db : r.Db)
        → r.entries (limit_key l q) (cleared now db)
          ≡ live l.window_seconds now (r.entries (limit_key l q) db)
    unfolding cleared
    entries-cleared now db =
        laws.entries-zremrangebyscore (limit_key l q) (sub_ℕ now l.window_seconds) db
        ∙ live_cleared l.window_seconds now (r.entries (limit_key l q) db)

    -- The live requests are in the cleared set.
    live-cleared :
        (seen : List Entry) (last now : ℕ) (s : List Entry × r.Db)
        → last ≤ now
        → Inv seen last s
        → live l.window_seconds now s.0 ≡ r.entries (limit_key l q) (cleared now s.1)
    live-cleared seen last now s h inv =
        sym (live-live l.window_seconds last now s.0 h)
        ∙ ap (live l.window_seconds now) inv.live_ones
        ∙ live-live l.window_seconds last now (r.entries (limit_key l q) s.1) h
        ∙ sym (entries-cleared now s.1)

    -- A cleared set is live already, and has no new member.
    live-entries-cleared :
        (now : ℕ) (db : r.Db)
        → live l.window_seconds now (r.entries (limit_key l q) (cleared now db))
          ≡ r.entries (limit_key l q) (cleared now db)
    live-entries-cleared now db =
        ap (live l.window_seconds now) (entries-cleared now db)
        ∙ live-live l.window_seconds now now (r.entries (limit_key l q) db) (omega arith)
        ∙ sym (entries-cleared now db)

    members-cleared :
        (seen : List Entry) (last now : ℕ) (s : List Entry × r.Db) (m : Text)
        → Inv seen last s
        → has_member m seen ≡ false
        → has_member m (r.entries (limit_key l q) (cleared now s.1)) ≡ false
    members-cleared seen last now s m inv h =
        ap (has_member m) (entries-cleared now s.1)
        ∙ has_member-live l.window_seconds now m (r.entries (limit_key l q) s.1) (inv.members m h)

    not_same :
        (m : Text) (e : Entry) (seen : List Entry)
        → has_member m (e ∷ seen) ≡ false
        → (e.member == m) ≡ false
    not_same m e seen h = elim (Bool-cases (e.member == m)) [
      | inl t ↦ let yes : has_member m (e ∷ seen) ≡ true = simp (t) refl in absurd (cc (h, yes))
      | inr f ↦ f
    ]

    older :
        (m : Text) (e : Entry) (seen : List Entry)
        → has_member m (e ∷ seen) ≡ false
        → has_member m seen ≡ false
    older m e seen h = simp (not_same m e seen h) at h

    Inv-limited :
        (seen : List Entry) (last : ℕ) (e : Entry) (s : List Entry × r.Db)
        → last ≤ e.score
        → Inv seen last s
        → Inv (e ∷ seen) e.score (s.0, cleared e.score s.1)
    Inv-limited seen last e s h inv = record {
      live_ones = live-cleared seen last e.score s h inv ∙ sym (live-entries-cleared e.score s.1);
      bound = inv.bound;
      members = λ m k. members-cleared seen last e.score s m inv (older m e seen k);
    }

    entries-recorded :
        (e : Entry) (db : r.Db)
        → has_member e.member (r.entries (limit_key l q) db) ≡ false
        → r.entries (limit_key l q) (record_request r l (limit_key l q) e db)
          ≡ e ∷ r.entries (limit_key l q) db
    entries-recorded e db h =
        laws.entries-expire (limit_key l q) (limit_key l q) (l.window_seconds + 5)
          (r.zadd (limit_key l q) e db)
        ∙ laws.entries-zadd (limit_key l q) e db h

    live-cons :
        (now : ℕ) (e : Entry) (xs ys : List Entry)
        → live l.window_seconds now xs ≡ live l.window_seconds now ys
        → live l.window_seconds now (e ∷ xs) ≡ live l.window_seconds now (e ∷ ys)
    live-cons now e xs ys h = elim (Bool-cases (ltb now (e.score + l.window_seconds))) [
      | inl t ↦ simp (t) (ap (λ z. e ∷ z) h)
      | inr f ↦ simp (f) h
    ]

    within-cons :
        (e : Entry) (es : List Entry) (t : ℕ)
        → within l.window_seconds t es ≤ l.max_requests
        → length (live l.window_seconds e.score es) < l.max_requests
        → within l.window_seconds t (e ∷ es) ≤ l.max_requests
    within-cons e es t h low = elim (Bool-cases (leb e.score t)) [
      | inl y ↦
          ground (arith, within-live l.window_seconds e.score t es (ground (arith, y)), h, low)
      | inr n ↦ simp (n) h
    ]

    Inv-admitted :
        (seen : List Entry) (last : ℕ) (e : Entry) (s : List Entry × r.Db)
        → last ≤ e.score
        → has_member e.member seen ≡ false
        → r.zcard (limit_key l q) (cleared e.score s.1) < l.max_requests
        → Inv seen last s
        → Inv
            (e ∷ seen)
            e.score
            (e ∷ s.0, record_request r l (limit_key l q) e (cleared e.score s.1))
    Inv-admitted seen last e s h new low inv =
        let here = live-cleared seen last e.score s h inv in
        let set =
          entries-recorded e (cleared e.score s.1)
            (members-cleared seen last e.score s e.member inv new) in
        record {
          live_ones =
              live-cons e.score e s.0 (r.entries (limit_key l q) (cleared e.score s.1))
                (here ∙ sym (live-entries-cleared e.score s.1))
              ∙ ap (live l.window_seconds e.score) (sym set);
          bound = λ t. within-cons e s.0 t (inv.bound t) (
              omega (
                arith,
                low,
                ap length here,
                laws.zcard-entries (limit_key l q) (cleared e.score s.1),
              ));
          members = λ m k.
              ap (has_member m) set
              ∙ simp (not_same m e seen k)
                  (members-cleared seen last e.score s m inv (older m e seen k));
        }

    decide-Inv :
        (seen : List Entry) (last : ℕ) (e : Entry) (s : List Entry × r.Db)
        → last ≤ e.score
        → has_member e.member seen ≡ false
        → Inv seen last s
        → Inv (e ∷ seen) e.score (note e s.0 (limit_request r l q e true true s.1))
    unfolding limit_request cleared
    decide-Inv seen last e s h new inv =
        elim (Bool-cases (leb l.max_requests (r.zcard (limit_key l q) (cleared e.score s.1)))) [
          | inl full ↦ simp (full) (Inv-limited seen last e s h inv)
          | inr low ↦ simp (low) (Inv-admitted seen last e s h new (ground (arith, low)) inv)
        ]

    serve-Inv :
        (seen : List Entry) (last : ℕ) (es : List Entry) (s : List Entry × r.Db)
        → Ascending last es
        → Distinct seen es
        → Inv seen last s
        → (t : ℕ) → within l.window_seconds t (serve es s).0 ≤ l.max_requests
    serve-Inv seen last [] s up new inv t = inv.bound t
    serve-Inv seen last (e ∷ es) (gone_on, db) up new inv t =
        serve-Inv (e ∷ seen) e.score es (note e gone_on (limit_request r l q e true true db)) up.1
          new.1 (decide-Inv seen last e (gone_on, db) up.0 new.0 inv) t

    -- For a client whose set is empty, and any calls one after the other, at times that do not go
    -- back and with new members: whatever window of time is looked at, no more requests in it go on
    -- than the limit.
    pub serve-within :
        (es : List Entry) (db : r.Db) (t : ℕ)
        → r.entries (limit_key l q) db ≡ []
        → Ascending 0 es
        → Distinct [] es
        → within l.window_seconds t (serve es ([], db)).0 ≤ l.max_requests
    serve-within es db t empty up new =
        serve-Inv [] 0 es ([], db) up new
          (record {
            live_ones = ap (live l.window_seconds 0) (sym empty);
            bound = λ x. omega arith;
            members = λ m h. ap (has_member m) empty;
          })
          t
