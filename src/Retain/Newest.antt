-- ===== src/Retain/Newest.antt =====
-- Each repo keeps its newest ready deploy.
use local_preview.Base.{
  ℕ, ◌≡◌, ◌<◌, inl, inr, String, Bool, true, false, ◌&&◌, List, [], ◌∷◌, arith, ◌==◌, ==_iff, leb,
  ltb, if◌then◌else◌, any, All, All-append, All-map, Bool-cases, Table, find, put, find-put,
  ℕ_comparable,
}
use local_preview.Db.Deploys.{DeployRow, Database, is_ready}
use local_preview.Db.Deploys.Valid.{Below, IsValid}
use local_preview.Retain.{
  Policy, World, Sweep, start_sweep, enabled, seen_ready, is_newest_ready, mark_ready, retain,
  consider, sweep_rows, sweep,
}
use local_preview.Retain.Evicts.{IsEvictable, with_evicted, consider_cases}

abbrev pub newer_ready : ℕ → ℕ → DeployRow → Bool
newer_ready repo_id id r = r.repo_id == repo_id && is_ready r.status && ltb id r.id

abbrev ready_from : ℕ → ℕ → DeployRow → Bool
ready_from repo_id id r = r.repo_id == repo_id && is_ready r.status && leb id r.id

-- A ready deploy has a newer ready one in its repo.
abbrev pub IsSuperseded : List DeployRow → DeployRow → Type 0
IsSuperseded all e = is_ready e.status ≡ true → any (newer_ready e.repo_id e.id) all ≡ true

-- Whatever holds of the row holds of some row of the list.
abbrev IsIn : List DeployRow → DeployRow → Type 0
IsIn all r = (q : DeployRow → Bool) → q r ≡ true → any q all ≡ true

All-IsIn : (rows : List DeployRow) → All (IsIn rows) rows
All-IsIn [] = tt
All-IsIn (r ∷ rows) = (
  λ q h. ground arith,
  All-map (IsIn rows) (IsIn (r ∷ rows)) (λ x i q h. ground (arith, i q h)) rows (All-IsIn rows),
)

any_mono :
    (q q' : DeployRow → Bool)
    → ((r : DeployRow) → q r ≡ true → q' r ≡ true)
    → (rows : List DeployRow) → any q rows ≡ true
    → any q' rows ≡ true
any_mono q q' f [] h = h
any_mono q q' f (r ∷ rows) h = ground (arith, f r, any_mono q q' f rows)

-- A repo that is marked has a ready deploy that is at least as new as `id`.
abbrev IsMarkedFrom : List DeployRow → ℕ → Sweep → Type 0
IsMarkedFrom all id s =
    (repo_id : ℕ)
    → seen_ready repo_id s.newest_ready ≡ true
    → any (ready_from repo_id id) all ≡ true

abbrev KeepsNewest : List DeployRow → ℕ → Sweep → Type 0
KeepsNewest all id s = IsMarkedFrom all id s × All (IsSuperseded all) s.evicted

module _ (all : List DeployRow) (w : World) (row : DeployRow) (n : ℕ) (older : row.id < n) where
  IsMarkedFrom-mono : (s : Sweep) → IsMarkedFrom all n s → IsMarkedFrom all row.id s
  IsMarkedFrom-mono s m repo_id h =
      any_mono (ready_from repo_id n) (ready_from repo_id row.id)
        (λ r t. ground (arith, leb n r.id)) all (m repo_id h)

  ready_of : (s : Sweep) → is_newest_ready row s ≡ true → is_ready row.status ≡ true
  unfolding is_newest_ready
  ready_of s h = ground arith

  marked_of :
      (s : Sweep)
      → is_newest_ready row s ≡ false
      → is_ready row.status ≡ true
      → seen_ready row.repo_id s.newest_ready ≡ true
  unfolding is_newest_ready
  marked_of s h r = ground arith

  seen_ready-put :
      (repo_id : ℕ) (newest : Table ℕ (Unit {0}))
      → seen_ready repo_id (put row.repo_id tt newest)
        ≡ (if row.repo_id == repo_id then true else seen_ready repo_id newest)
  unfolding seen_ready
  seen_ready-put repo_id newest = ground (arith, find-put row.repo_id repo_id tt newest)

  KeepsNewest-retain :
      (s : Sweep)
      → IsIn all row
      → KeepsNewest all n s
      → KeepsNewest all row.id (retain row (mark_ready row s))
  unfolding mark_ready
  KeepsNewest-retain s i (m, e) = elim (Bool-cases (is_newest_ready row s)) [
    | inl new ↦
        rw (new, mark_ready)
          (
            λ repo_id h. ground (
              arith,
              ready_of s new,
              seen_ready-put repo_id s.newest_ready,
              i (ready_from repo_id row.id),
              ==_iff row.repo_id repo_id,
              IsMarkedFrom-mono s m repo_id,
            ),
            e,
          )
    | inr old ↦ rw (old, mark_ready) (IsMarkedFrom-mono s m, e)
  ]

  KeepsNewest-with_evicted :
      (p : Policy) (aliases : Table (ℕ × String) ℕ) (s : Sweep)
      → KeepsNewest all n s
      → IsEvictable p w aliases s row
      → KeepsNewest all row.id (with_evicted w row s)
  KeepsNewest-with_evicted p aliases s (m, e) v = (
    IsMarkedFrom-mono s m,
    All-append (IsSuperseded all) s.evicted (row ∷ []) e (
      (λ ready.
          any_mono (ready_from row.repo_id n) (newer_ready row.repo_id row.id) (λ r t. ground arith)
            all (m row.repo_id (marked_of s v.superseded ready))),
      tt,
    ),
  )

module _ (all : List DeployRow) (p : Policy) (w : World) (aliases : Table (ℕ × String) ℕ) where
  consider-KeepsNewest :
      (row : DeployRow) (n : ℕ) (s : Sweep)
      → row.id < n
      → IsIn all row
      → KeepsNewest all n s
      → KeepsNewest all row.id (consider p w aliases row s)
  consider-KeepsNewest row n s older i k =
      consider_cases (KeepsNewest all row.id) w row p aliases s
        (IsMarkedFrom-mono all w row n older s k.0, k.1)
        (λ e. KeepsNewest-retain all w row n older s i k)
        (KeepsNewest-with_evicted all w row n older p aliases s k)

  sweep_rows-IsSuperseded :
      (rows : List DeployRow) (n : ℕ) (s : Sweep)
      → Below n rows
      → All (IsIn all) rows
      → KeepsNewest all n s
      → All (IsSuperseded all) (sweep_rows p w aliases rows s).evicted
  unfolding sweep_rows
  sweep_rows-IsSuperseded [] n s b i k = k.1
  sweep_rows-IsSuperseded (row ∷ rows) n s b i k =
      sweep_rows-IsSuperseded rows row.id (consider p w aliases row s) b.1 i.1
        (consider-KeepsNewest row n s b.0 i.0 k)

none_marked : (all : List DeployRow) (n : ℕ) (db : Database) → IsMarkedFrom all n (start_sweep db)
unfolding seen_ready find
none_marked all n db repo_id h = absurd (ground arith)

-- On a valid table, a ready deploy is evicted only when its repo has a newer ready one, so the
-- newest ready deploy of each repo stays, whatever the policy.
pub sweep-IsSuperseded :
    (p : Policy) (w : World) (db : Database)
    → IsValid db
    → All (IsSuperseded db.deploys) (sweep p w db).evicted
unfolding sweep
sweep-IsSuperseded p w db v = elim (Bool-cases (enabled p)) [
  | inr off ↦ rw (off, sweep) tt
  | inl on ↦
      rw (on, sweep)
        (sweep_rows-IsSuperseded db.deploys p w db.aliases db.deploys db.next_id (start_sweep db)
          v.ordered (All-IsIn db.deploys) (none_marked db.deploys db.next_id db, tt))
]
