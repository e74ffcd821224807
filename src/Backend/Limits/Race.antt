-- ===== src/Backend/Limits/Race.antt =====
-- Requests of a client at the same time: the two pipelines of a call are two transactions, and those
-- of other calls may come between them.
use secure_remote_code_execu.Prelude.{
  ℕ, suc, ◌<◌, ◌≡◌, refl, ap, ◌∙◌, Bool, true, false, List, [], ◌∷◌, length, All, leb, list_eq,
  nat_eq, if◌then◌else◌, arith,
}
use secure_remote_code_execu.Prelude.Texts.{Text}
use secure_remote_code_execu.Prelude.Int.{sub_ℕ}
use secure_remote_code_execu.Backend.Limits.{
  Entry, SortedSets, SortedSetsLaws, RateLimiter, Verdict, admitted, limited, count_window,
  record_request, decide,
}
use secure_remote_code_execu.Backend.Limits.Live.{live, live-live, live_cleared}

module _ (r : SortedSets) (l : RateLimiter) (key : Text) where
  -- The first pipelines of some calls, one after the other: what each has counted, in order.
  abbrev pub count_all : List Entry → r.Db → List (Entry × ℕ) × r.Db
  count_all [] db = ([], db)
  count_all (e ∷ es) db =
      let (count, cleared) = count_window r l key e.score db in
      let (counts, rest) = count_all es cleared in ((e, count) ∷ counts, rest)

  abbrev pub is_admitted : Verdict × r.Db → Bool
  is_admitted (admitted, db) = true
  is_admitted (limited n, db) = false

  -- Then the rest of each call: how many of them go on.
  abbrev pub decide_all : List (Entry × ℕ) → r.Db → ℕ × r.Db
  decide_all [] db = (0, db)
  decide_all ((e, count) ∷ es) db =
      let answer = decide r l key e true (count, db) in
      let (more, rest) = decide_all es answer.1 in
      (if is_admitted answer then suc more else more, rest)

  -- Every count is of the set as it was.
  counts-low :
      SortedSetsLaws r
      → (n now : ℕ) (es : List Entry) (db : r.Db) → All (λ e. e.score ≡ now) es
      → length (live l.window_seconds now (r.entries key db)) ≡ n
      → All (λ p. p.1 ≡ n) (count_all es db).0
  counts-low laws n now [] db same h = tt
  counts-low laws n now (e ∷ es) db same h =
      let cleared = r.zremrangebyscore key (sub_ℕ e.score l.window_seconds) db in
      let set : r.entries key cleared ≡ live l.window_seconds now (r.entries key db) =
        laws.entries-zremrangebyscore key (sub_ℕ e.score l.window_seconds) db
        ∙ live_cleared l.window_seconds e.score (r.entries key db)
        ∙ ap (λ t. live l.window_seconds t (r.entries key db)) same.0 in
      (
        laws.zcard-entries key cleared ∙ ap length set ∙ h,
        counts-low laws n now es cleared same.1 (
            ap (λ x. length (live l.window_seconds now x)) set
            ∙ ap length (live-live l.window_seconds now now (r.entries key db) (omega arith))
            ∙ h),
      )

  decide_all-low :
      (n : ℕ) (cs : List (Entry × ℕ)) (db : r.Db)
      → n < l.max_requests
      → All (λ p. p.1 ≡ n) cs
      → (decide_all cs db).0 ≡ length cs
  decide_all-low n [] db low h = refl
  decide_all-low n ((e, count) ∷ cs) db low h =
      let no : leb l.max_requests count ≡ false = ground (arith, low, h.0) in
      simp (no) (ap suc (decide_all-low n cs (record_request r l key e db) low h.1))

  length-count_all : (es : List Entry) (db : r.Db) → length (count_all es db).0 ≡ length es
  length-count_all [] db = refl
  length-count_all (e ∷ es) db = ap suc (length-count_all es (count_window r l key e.score db).1)

  -- Any number of calls of a client at one time, below the limit, of which all count before the first
  -- of them records: all of them go on, however many they are.
  pub decide_all-count_all :
      SortedSetsLaws r
      → (now : ℕ) (es : List Entry) (db : r.Db)
      → length (live l.window_seconds now (r.entries key db)) < l.max_requests
      → All (λ e. e.score ≡ now) es
      → (decide_all (count_all es db).0 (count_all es db).1).0 ≡ length es
  decide_all-count_all laws now es db low same =
      decide_all-low (length (live l.window_seconds now (r.entries key db))) (count_all es db).0
        (count_all es db).1 low
        (counts-low laws (length (live l.window_seconds now (r.entries key db))) now es db same
          refl)
      ∙ length-count_all es db
