-- ===== src/Retain/Evicts.antt =====
-- The ways that the body of the sweep goes, and the induction rule of its loop.
use local_preview.Base.{
  ℕ, ◌≡◌, inl, inr, refl, String, true, false, ◌||◌, List, [], ◌∷◌, ◌++◌, arith, Bool-cases, Table,
  Option-cases,
}
use local_preview.Db.Deploys.{
  DeployRow, evicted, is_evicted, is_unfinished, is_aliased, set_deploy_evicted, update_deploy,
  set_row, get_deploy_by_id,
}
use local_preview.Supervise.Collect.{gc_deploy}
use local_preview.Retain.{
  Policy, World, Sweep, mark_ready, is_newest_ready, is_protected, over_count, too_old, retain,
  evict_row, consider, sweep_rows,
}

abbrev pub as_evicted : DeployRow → DeployRow
as_evicted d = record d { status = evicted }

-- The state after a row was evicted.
abbrev pub with_evicted : World → DeployRow → Sweep → Sweep
with_evicted w row s =
    let db = record s.db { deploys = set_row row.id as_evicted s.db.deploys } in
    record s {
      db = db;
      evicted = s.evicted ++ row ∷ [];
      actions = s.actions ++ gc_deploy w.has_frontend_artifact row db;
    }

-- What holds of a row when the sweep tries to evict it.
pub record IsEvictable (p : Policy) (w : World) (aliases : Table (ℕ × String) ℕ) (s : Sweep)
    (row : DeployRow) : Type 0 where
  pub resident : is_evicted row.status ≡ false
  pub finished : is_unfinished row.status ≡ false
  pub unaliased : is_aliased row.id aliases ≡ false
  pub superseded : is_newest_ready row s ≡ false
  pub limit : (over_count p row s || too_old p w row) ≡ true

module _ (P : Sweep → Type 0) (w : World) (row : DeployRow) where
  evict_row_cases : (s : Sweep) → P s → P (with_evicted w row s) → P (evict_row w row s)
  unfolding evict_row set_deploy_evicted update_deploy
  evict_row_cases s same gone = elim (Bool-cases (w.update_fails row.id)) [
    | inl f ↦ rw (f, evict_row) same
    | inr f ↦ elim (Option-cases (get_deploy_by_id row.id s.db.deploys)) [
      | inl e ↦ rw (f, e, evict_row) same
      | inr (d, e) ↦ rw (f, e, evict_row) gone
    ]
  ]

  not_newest :
      (aliases : Table (ℕ × String) ℕ) (s : Sweep)
      → is_protected aliases row s ≡ false
      → is_newest_ready row s ≡ false
  unfolding is_protected
  not_newest aliases s g = ground arith

  unmarked : (s : Sweep) → is_newest_ready row s ≡ false → mark_ready row s ≡ s
  unfolding mark_ready
  unmarked s e = rw (e, mark_ready) refl

  evictable :
      (p : Policy) (aliases : Table (ℕ × String) ℕ) (s : Sweep)
      → is_evicted row.status ≡ false
      → is_protected aliases row s ≡ false
      → (over_count p row s || too_old p w row) ≡ true
      → IsEvictable p w aliases s row
  unfolding is_protected
  evictable p aliases s e g l = record {
    resident = e;
    finished = ground arith;
    unaliased = ground arith;
    superseded = not_newest aliases s g;
    limit = l;
  }

  -- The three things that the sweep can do with a row.
  pub consider_cases :
      (p : Policy) (aliases : Table (ℕ × String) ℕ) (s : Sweep)
      → P s
      → (is_evicted row.status ≡ false → P (retain row (mark_ready row s)))
      → (IsEvictable p w aliases s row → P (with_evicted w row s))
      → P (consider p w aliases row s)
  unfolding consider
  consider_cases p aliases s same kept gone = elim (Bool-cases (is_evicted row.status)) [
    | inl e ↦ rw (e, consider) same
    | inr e ↦ elim (Bool-cases (is_protected aliases row s)) [
      | inl g ↦ rw (e, g, consider) (kept e)
      | inr g ↦ elim (Bool-cases (over_count p row s || too_old p w row)) [
        | inr l ↦ rw (e, g, l, consider) (kept e)
        | inl l ↦
            rw (e, g, l, unmarked s (not_newest aliases s g), consider)
              (evict_row_cases s same (gone (evictable p aliases s e g l)))
      ]
    ]
  ]

-- An invariant of the loop's body is one of the loop.
pub sweep_rows_rule :
    (P : Sweep → Type 0) (p : Policy) (w : World) (aliases : Table (ℕ × String) ℕ)
    → ((row : DeployRow) (s : Sweep) → P s → P (consider p w aliases row s))
    → (rows : List DeployRow) (s : Sweep) → P s
    → P (sweep_rows p w aliases rows s)
unfolding sweep_rows
sweep_rows_rule P p w aliases step [] s h = h
sweep_rows_rule P p w aliases step (row ∷ rows) s h =
    sweep_rows_rule P p w aliases step rows (consider p w aliases row s) (step row s h)
