-- ===== src/Supervise/Collect/Spares.antt =====
-- A deploy that still holds artifacts loses none of them when another is collected.
use local_preview.Base.{
  ℕ, ◌≡◌, refl, String, Bool, false, ◌&&◌, List, [], ◌∷◌, arith, if◌then◌else◌, any, keep, str_eq,
  All, All-append, Table, ◌∙◌,
}
use local_preview.Supervise.Keys.{Side, backend, frontend, backend_key, frontend_key}
use local_preview.Db.Deploys.{ArtifactRef, DeployRow, Database, list_deploys_of, set_row, evicted}
use local_preview.Supervise.Collect.{
  Reclaim, GcAction, stop, delete_backend_artifact, remove_backend, delete_frontend_artifact,
  remove_frontend, remove_artifact, remove_hash_logs, uses_backend, uses_frontend, uses_artifact,
  gc_backend, gc_frontend, gc_artifacts, gc_deploy,
}

abbrev uses_side : Side → String → DeployRow → Bool
uses_side backend = uses_backend
uses_side frontend = uses_frontend

abbrev uses_kind : String → String → DeployRow → Bool
uses_kind kind hash =
    if str_eq kind "be"
    then uses_backend hash
    else if str_eq kind "fe"
    then uses_frontend hash
    else uses_artifact hash

-- The row still uses what the call takes away.
abbrev pub uses : Reclaim → DeployRow → Bool
uses (stop k) = uses_side k.side k.hash
uses (delete_backend_artifact repo_id hash) = uses_backend hash
uses (remove_backend hash) = uses_backend hash
uses (delete_frontend_artifact repo_id hash) = uses_frontend hash
uses (remove_frontend hash) = uses_frontend hash
uses (remove_artifact hash) = uses_artifact hash
uses (remove_hash_logs kind hash) = uses_kind kind hash

abbrev pub pins : GcAction → DeployRow → Bool
pins a r = str_eq r.repo_name a.repo_name && uses a.what r

-- No row of the table uses what the call takes away.
abbrev pub IsFree : List DeployRow → GcAction → Type 0
IsFree rows a = any (pins a) rows ≡ false

any-keep :
    (p q : DeployRow → Bool) (rows : List DeployRow)
    → any (λ r. p r && q r) rows ≡ any q (keep p rows)
any-keep p q [] = refl
any-keep p q (r ∷ rows) = ground (arith, any-keep p q rows)

module _ (rows : List DeployRow) (repo_name : String) where
  abbrev remaining : List DeployRow
  remaining = list_deploys_of repo_name rows

  free :
      (what : Reclaim)
      → any (uses what) remaining ≡ false
      → IsFree rows (record { repo_name = repo_name; what = what })
  free what h = any-keep (λ r. str_eq r.repo_name repo_name) (uses what) rows ∙ h

  gc_backend-IsFree :
      (row : DeployRow) → row.repo_name ≡ repo_name → All (IsFree rows) (gc_backend row remaining)
  unfolding gc_backend
  gc_backend-IsFree row e = ground (
    arith,
    free (stop (backend_key row.repo_id row.be_hash)),
    free (delete_backend_artifact row.repo_id row.be_hash),
    free (remove_backend row.be_hash),
    free (remove_hash_logs "be" row.be_hash),
  )

  gc_frontend-IsFree :
      (is_process : Bool) (row : DeployRow)
      → row.repo_name ≡ repo_name
      → All (IsFree rows) (gc_frontend is_process row remaining)
  unfolding gc_frontend
  gc_frontend-IsFree is_process row e = ground (
    arith,
    free (stop (frontend_key row.repo_id row.fe_hash row.be_hash)),
    free (delete_frontend_artifact row.repo_id row.fe_hash),
    free (remove_frontend row.fe_hash),
    free (remove_hash_logs "fe" row.fe_hash),
  )

  gc_artifacts-IsFree :
      (refs : Table String ArtifactRef) → All (IsFree rows) (gc_artifacts repo_name refs remaining)
  unfolding gc_artifacts
  gc_artifacts-IsFree [] = tt
  gc_artifacts-IsFree ((name, ref) ∷ refs) = ground (
    arith,
    free (remove_artifact ref.hash),
    free (remove_hash_logs "dl" ref.hash),
    gc_artifacts-IsFree refs,
  )

-- Whatever is collected for a deploy, no call stops a process, drops a row or removes files or logs
-- of a hash that a deploy of the same repo with that hash, other than an evicted one, is still on
-- the table for.
pub gc_deploy-IsFree :
    (has_frontend_artifact : ℕ → String → Bool) (row : DeployRow) (db : Database)
    → All (IsFree db.deploys) (gc_deploy has_frontend_artifact row db)
unfolding gc_deploy
gc_deploy-IsFree has_frontend_artifact row db =
    All-append (IsFree db.deploys) _ _
      (All-append (IsFree db.deploys) _ _ (gc_backend-IsFree db.deploys row.repo_name row refl) (
        gc_frontend-IsFree db.deploys row.repo_name (has_frontend_artifact row.repo_id row.fe_hash)
          row refl))
      (gc_artifacts-IsFree db.deploys row.repo_name row.artifacts)

uses_side-evicted :
    (side : Side) (hash : String) (r : DeployRow)
    → uses_side side hash (record r { status = evicted }) ≡ false
uses_side-evicted backend hash r = refl
uses_side-evicted frontend hash r = refl

uses-evicted : (what : Reclaim) (r : DeployRow) → uses what (record r { status = evicted }) ≡ false
uses-evicted (stop k) r = uses_side-evicted k.side k.hash r
uses-evicted (delete_backend_artifact repo_id hash) r = refl
uses-evicted (remove_backend hash) r = refl
uses-evicted (delete_frontend_artifact repo_id hash) r = refl
uses-evicted (remove_frontend hash) r = refl
uses-evicted (remove_artifact hash) r = refl
uses-evicted (remove_hash_logs kind hash) r = ground arith

-- Marking a row as evicted frees no call that was not free.
pub IsFree-set_row :
    (a : GcAction) (id : ℕ) (rows : List DeployRow)
    → IsFree rows a
    → IsFree (set_row id (λ d. record d { status = evicted }) rows) a
unfolding set_row
IsFree-set_row a id [] h = refl
IsFree-set_row a id (r ∷ rows) h = ground (arith, uses-evicted a.what r, IsFree-set_row a id rows)
