-- ===== src/Retain/Reclaims.antt =====
-- What a sweep reclaims is used by no deploy that survives it.
use local_preview.Base.{inl, inr, Bool-cases, All, All-append, All-map}
use local_preview.Db.Deploys.{DeployRow, Database}
use local_preview.Supervise.Collect.Spares.{IsFree, IsFree-set_row, gc_deploy-IsFree}
use local_preview.Retain.{
  Policy, World, Sweep, start_sweep, enabled, mark_ready, is_newest_ready, retain, sweep,
}
use local_preview.Retain.Evicts.{with_evicted, consider_cases, sweep_rows_rule}

-- No row of the table uses what the sweep has reclaimed so far.
abbrev ReclaimsFree : Sweep → Type 0
ReclaimsFree s = All (IsFree s.db.deploys) s.actions

ReclaimsFree-with_evicted :
    (w : World) (row : DeployRow) (s : Sweep) → ReclaimsFree s → ReclaimsFree (with_evicted w row s)
ReclaimsFree-with_evicted w row s h =
    All-append (IsFree (with_evicted w row s).db.deploys) s.actions _
      (All-map (IsFree s.db.deploys) _ (λ a f. IsFree-set_row a row.id s.db.deploys f) s.actions h)
      (gc_deploy-IsFree w.has_frontend_artifact row (with_evicted w row s).db)

ReclaimsFree-retain :
    (row : DeployRow) (s : Sweep) → ReclaimsFree s → ReclaimsFree (retain row (mark_ready row s))
unfolding mark_ready
ReclaimsFree-retain row s h = elim (Bool-cases (is_newest_ready row s)) [
  | inl e ↦ rw (e, mark_ready) h
  | inr e ↦ rw (e, mark_ready) h
]

-- No process, row, file or log that a sweep reclaims is one that a deploy which is not evicted when
-- the sweep ends, of the same repo, has the hash of.
pub sweep-ReclaimsFree :
    (p : Policy) (w : World) (db : Database)
    → All (IsFree (sweep p w db).db.deploys) (sweep p w db).actions
unfolding sweep
sweep-ReclaimsFree p w db = elim (Bool-cases (enabled p)) [
  | inr off ↦ rw (off, sweep) tt
  | inl on ↦
      rw (on, sweep)
        (sweep_rows_rule ReclaimsFree p w db.aliases
          (λ row s h.
            consider_cases ReclaimsFree w row p db.aliases s h (λ e. ReclaimsFree-retain row s h)
              (λ e. ReclaimsFree-with_evicted w row s h))
          db.deploys (start_sweep db) tt)
]
