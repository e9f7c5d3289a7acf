-- ===== src/Build/Unreachable.antt =====
-- EvictUnreachable: the deploys of commits that no branch reaches any more.
use local_preview.Base.{
  ℕ, ◌+◌, String, Bool, true, false, Option, none, some, List, [], ◌∷◌, ◌++◌, if◌then◌else◌, keep,
  map, any, list_same, pair_same, String_comparable, ℕ_comparable,
}
use local_preview.Db.Deploys.{
  Database, DeployRow, DeployStatus, Sha, Result, queued, building, ready, failed, evicted,
  list_deploys_of, set_deploy_evicted,
}
use local_preview.Db.Deploys
use local_preview.Supervise.Collect.{gc_deploy}
use local_preview.Build.{World, Repo, ok, err, Outcome, unreachable_failed}
use local_preview.Build.Request.{Git}

-- row.Status == DeployReady || row.Status == DeployQueued
abbrev pub is_candidate : DeployRow → Bool
is_candidate d = elim d.status [
  | queued ↦ true
  | building ↦ false
  | ready ↦ true
  | failed ↦ false
  | evicted ↦ false
]

abbrev pub candidates : String → List DeployRow → List DeployRow
candidates repo_name rows = keep is_candidate (list_deploys_of repo_name rows)

-- bySHA[sha]; the constraints of the table leave one row of a sha.
unfoldable pub row_of_sha : Sha → List DeployRow → Option DeployRow
row_of_sha sha [] = none
row_of_sha sha (d ∷ ds) = if list_same d.sha sha then some d else row_of_sha sha ds

abbrev pub has_frontend_row : World → ℕ → String → Bool
has_frontend_row w repo_id fe = any (pair_same (repo_id, fe)) w.frontend_rows

abbrev pub collect_evicted : DeployRow → Result Database → World × ℕ → World × ℕ
collect_evicted row (Deploys.err e) (w, n) = (w, n)
collect_evicted row (Deploys.ok db) (w, n) =
    (record w { db = db; collected = w.collected ++ gc_deploy (has_frontend_row w) row db }, n + 1)

abbrev pub evict_row : Option DeployRow → World × ℕ → World × ℕ
evict_row none r = r
evict_row (some row) r = collect_evicted row (set_deploy_evicted row.id r.0.db) r

-- The loop over the stale shas. A sha that is no candidate reads the zero row, whose id no deploy
-- has, so that its update finds nothing.
unfoldable pub evict_stale : List DeployRow → List Sha → World × ℕ → World × ℕ
evict_stale rows [] r = r
evict_stale rows (sha ∷ shas) r = evict_stale rows shas (evict_row (row_of_sha sha rows) r)

abbrev pub evict_among : List DeployRow → Option (List Sha) → World → Outcome ℕ
evict_among rows none w = (w, err unreachable_failed)
evict_among rows (some stale) w = let r = evict_stale rows stale (w, 0) in (r.0, ok r.1)

abbrev pub evict_rows : Git → Repo → List Sha → List DeployRow → World → Outcome ℕ
evict_rows git repo tips [] w = (w, ok 0)
evict_rows git repo tips (d ∷ ds) w =
    evict_among (d ∷ ds) (git.unreachable_shas repo.name (map (λ r. r.sha) (d ∷ ds)) tips) w

unfoldable pub evict_unreachable : Git → Repo → List Sha → World → Outcome ℕ
evict_unreachable git repo tips w = evict_rows git repo tips (candidates repo.name w.db.deploys) w
