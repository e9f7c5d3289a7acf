-- ===== src/Retain/Limits.antt =====
-- Which deploys a sweep evicts, and what it leaves alone.
use mathlib.Core.Option
use local_preview.Base.{
  ℕ, suc, ◌+◌, ◌*◌, ◌≤◌, ◌<◌, ◌≡◌, ◌⊎◌, inl, inr, refl, ap, ==_iff, ◌∙◌, Bool, true, false, not,
  ◌&&◌, ◌||◌, Option, none, some, List, [], ◌∷◌, ◌++◌, arith, ◌==◌, if◌then◌else◌, any, All,
  All-append, Bool-cases, pos_part, pos, ltb_ℤ, count, count-append, find, find-put, ℕ_comparable,
}
use local_preview.Db.Deploys.{
  DeployRow, Database, is_evicted, is_unfinished, is_aliased, get_deploy_by_id,
}
use local_preview.Db.Deploys.Lifecycle.{get-set_row}
use local_preview.Retain.{
  Policy, World, Sweep, start_sweep, enabled, mark_ready, is_newest_ready, over_count, too_old,
  retain, consider, sweep_rows, sweep, kept_of, cutoff, created_before, nanos_per_day,
}
use local_preview.Retain.Evicts.{as_evicted, with_evicted, IsEvictable, consider_cases}

any-snoc :
    (q : DeployRow → Bool) (xs : List DeployRow) (x : DeployRow)
    → any q (xs ++ x ∷ []) ≡ (any q xs || q x)
any-snoc q [] x = ground arith
any-snoc q (y ∷ ys) x = ground (arith, any-snoc q ys x)

-- A deploy of the repo that counts toward its limit.
abbrev pub counts_for : DeployRow → DeployRow → Bool
counts_for r d = d.repo_id == r.repo_id && not (is_evicted d.status)

-- A count limit is set, and at least that many deploys of the repo that hold something are in front
-- of the row.
abbrev pub IsOver : Policy → List DeployRow → DeployRow → Type 0
IsOver p rows r =
    (before : List DeployRow) × (after : List DeployRow) × (rows ≡ before ++ r ∷ after)
    × (1 ≤ pos_part p.max_deploys_per_repo)
    × (pos_part p.max_deploys_per_repo ≤ count (counts_for r) before)

-- An age limit is set, and the row's time can be read and is more than that many days ago.
abbrev pub IsAged : Policy → World → DeployRow → Type 0
IsAged p w r =
    (t : ℕ) × (w.parse_time r.created_at ≡ some t)
    × (1 ≤ pos_part p.max_age_days)
    × (t + pos_part p.max_age_days * nanos_per_day < w.now)

-- Neither queued, building nor evicted before, not the target of a branch alias, and over the count
-- limit or the age limit.
abbrev pub IsSpent : Policy → World → Database → DeployRow → Type 0
IsSpent p w db r =
    (is_evicted r.status ≡ false)
    × (is_unfinished r.status ≡ false)
    × (is_aliased r.id db.aliases ≡ false)
    × (IsOver p db.deploys r ⊎ IsAged p w r)

-- A row of the table after these deploys were marked as evicted.
abbrev pub marked : List DeployRow → ℕ → Option DeployRow → Option DeployRow
marked gone j o = if any (λ r. r.id == j) gone then Option.map as_evicted o else o

-- What a sweep that began with the database `db` has done so far.
pub record Swept (p : Policy) (w : World) (db : Database) (s : Sweep) : Type 0 where
  pub spent : All (IsSpent p w db) s.evicted
  pub rows :
      (j : ℕ) → get_deploy_by_id j s.db.deploys ≡ marked s.evicted j (get_deploy_by_id j db.deploys)
  pub aliases : s.db.aliases ≡ db.aliases
  pub next_id : s.db.next_id ≡ db.next_id

kept_of-retain :
    (row : DeployRow) (s : Sweep) (j : ℕ)
    → kept_of j (retain row s)
      ≡ (if row.repo_id == j then suc (kept_of row.repo_id s) else kept_of j s)
unfolding kept_of
kept_of-retain row s j = ground (arith, find-put row.repo_id j (suc (kept_of row.repo_id s)) s.kept)

kept_of-mark : (row : DeployRow) (s : Sweep) (j : ℕ) → kept_of j (mark_ready row s) ≡ kept_of j s
unfolding mark_ready kept_of
kept_of-mark row s j = elim (Bool-cases (is_newest_ready row s)) [
  | inl e ↦ rw (e, mark_ready) refl
  | inr e ↦ rw (e, mark_ready) refl
]

module _ (p : Policy) (w : World) (db : Database) where
  again :
      (b x : Bool) (o : Option DeployRow)
      → (if b
          then Option.map as_evicted (if x then Option.map as_evicted o else o)
          else (if x then Option.map as_evicted o else o))
        ≡ (if x || b then Option.map as_evicted o else o)
  again b false o = refl
  again false true o = refl
  again true true none = refl
  again true true (some d) = refl

  too_old-IsAged : (row : DeployRow) → too_old p w row ≡ true → IsAged p w row
  unfolding too_old cutoff
  too_old-IsAged row h = go (w.parse_time row.created_at) refl h
    where
      set : 1 ≤ pos_part p.max_age_days
      set = ground arith

      go :
          (o : Option ℕ)
          → w.parse_time row.created_at ≡ o
          → (ltb_ℤ (pos 0) p.max_age_days && created_before o (cutoff p w)) ≡ true
          → IsAged p w row
      go none e h = absurd (ground arith)
      go (some t) e h = (t, e, set, ground arith)

  -- The rows in front of the rest, and how many of them each repo has kept
  record Passed (rest : List DeployRow) (s : Sweep) : Type 0 where
    before : List DeployRow
    split : db.deploys ≡ before ++ rest
    kept : (r : DeployRow) → kept_of r.repo_id s ≤ count (counts_for r) before
    swept : Swept p w db s

  limit_of :
      (s : Sweep) (row : DeployRow) (rest : List DeployRow)
      → Passed (row ∷ rest) s
      → (over_count p row s || too_old p w row) ≡ true
      → IsOver p db.deploys row ⊎ IsAged p w row
  unfolding over_count
  limit_of s row rest h l = elim (Bool-cases (too_old p w row)) [
    | inl old ↦ inr (too_old-IsAged row old)
    | inr young ↦ inl (h.before, rest, h.split, ground arith, ground (arith, h.kept row))
  ]

  append_one : (xs ys : List DeployRow) (x : DeployRow) → xs ++ x ∷ ys ≡ (xs ++ x ∷ []) ++ ys
  append_one [] ys x = refl
  append_one (y ∷ xs) ys x = ap (λ (zs : List DeployRow). y ∷ zs) (append_one xs ys x)

  one_more :
      (r row : DeployRow) (xs : List DeployRow)
      → count (counts_for r) (xs ++ row ∷ [])
        ≡ count (counts_for r) xs + (if counts_for r row then 1 else 0)
  one_more r row xs = ground (arith, count-append (counts_for r) xs (row ∷ []))

  Passed-next :
      (row : DeployRow) (rest : List DeployRow) (s u : Sweep)
      → Passed (row ∷ rest) s
      → ((r : DeployRow)
          → kept_of r.repo_id u ≤ kept_of r.repo_id s + (if counts_for r row then 1 else 0))
      → Swept p w db u
      → Passed rest u
  Passed-next row rest s u h k e = record {
    before = h.before ++ row ∷ [];
    split = h.split ∙ append_one h.before rest row;
    kept = λ r. omega (arith, h.kept r, k r, one_more r row h.before);
    swept = e;
  }

  Swept-with_evicted :
      (row : DeployRow) (s : Sweep) (rest : List DeployRow)
      → Passed (row ∷ rest) s
      → IsEvictable p w db.aliases s row
      → Swept p w db (with_evicted w row s)
  Swept-with_evicted row s rest h e = record {
    spent =
        All-append (IsSpent p w db) s.evicted (row ∷ []) h.swept.spent
          ((e.resident, e.finished, e.unaliased, limit_of s row rest h e.limit), tt);
    rows = λ j.
        get-set_row as_evicted (λ d. refl) row.id j s.db.deploys
        ∙ rw (h.swept.rows j, any-snoc (λ r. r.id == j) s.evicted row)
            (again (row.id == j) (any (λ r. r.id == j) s.evicted) (get_deploy_by_id j db.deploys));
    aliases = h.swept.aliases;
    next_id = h.swept.next_id;
  }

  Swept-retain :
      (row : DeployRow) (s : Sweep) → Swept p w db s → Swept p w db (retain row (mark_ready row s))
  unfolding mark_ready
  Swept-retain row s h = elim (Bool-cases (is_newest_ready row s)) [
    | inl e ↦
        rw (e, mark_ready)
          (record { spent = h.spent; rows = h.rows; aliases = h.aliases; next_id = h.next_id })
    | inr e ↦
        rw (e, mark_ready)
          (record { spent = h.spent; rows = h.rows; aliases = h.aliases; next_id = h.next_id })
  ]

  retained :
      (row : DeployRow) (s : Sweep)
      → is_evicted row.status ≡ false
      → (r : DeployRow)
      → kept_of r.repo_id (retain row (mark_ready row s))
        ≤ kept_of r.repo_id s + (if counts_for r row then 1 else 0)
  retained row s e r = ground (
    arith,
    kept_of-retain row (mark_ready row s) r.repo_id,
    kept_of-mark row s row.repo_id,
    kept_of-mark row s r.repo_id,
    ==_iff row.repo_id r.repo_id,
  )

  Passed-consider :
      (row : DeployRow) (rest : List DeployRow) (s : Sweep)
      → Passed (row ∷ rest) s
      → Passed rest (consider p w db.aliases row s)
  Passed-consider row rest s h =
      consider_cases (Passed rest) w row p db.aliases s
        (Passed-next row rest s s h (λ r. omega arith) h.swept)
        (λ e.
          Passed-next row rest s (retain row (mark_ready row s)) h (retained row s e)
            (Swept-retain row s h.swept))
        (λ e.
          Passed-next row rest s (with_evicted w row s) h (λ r. unfold kept_of in omega arith)
            (Swept-with_evicted row s rest h e))

  Passed-rows :
      (rows : List DeployRow) (s : Sweep)
      → Passed rows s
      → Passed [] (sweep_rows p w db.aliases rows s)
  unfolding sweep_rows
  Passed-rows [] s h = h
  Passed-rows (row ∷ rows) s h =
      Passed-rows rows (consider p w db.aliases row s) (Passed-consider row rows s h)

  Swept-start : Swept p w db (start_sweep db)
  Swept-start = record { spent = tt; rows = λ j. refl; aliases = refl; next_id = refl }

  Passed-start : Passed db.deploys (start_sweep db)
  unfolding kept_of find
  Passed-start = record { before = []; split = refl; kept = λ r. omega arith; swept = Swept-start }

  -- Every deploy that a sweep evicts had finished, was not evicted before, is not the target of a branch
  -- alias, and was over a limit: at least as many rows of its repo that hold something as the count
  -- limit that is set stand in front of it in the table, which is newest first, or it was created more
  -- days ago than the age limit that is set. On the table exactly those rows change, in their status
  -- only, and the aliases stay.
  pub sweep-Swept : Swept p w db (sweep p w db)
  unfolding sweep
  sweep-Swept = elim (Bool-cases (enabled p)) [
    | inr off ↦ rw (off, sweep) Swept-start
    | inl on ↦ rw (on, sweep) (Passed-rows db.deploys (start_sweep db) Passed-start).swept
  ]
