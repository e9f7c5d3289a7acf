-- ===== src/Supervise/Collect.antt =====
-- GCDeploy of internal/supervise/supervise.go: what is reclaimed once a deploy's row is deleted or
-- evicted. The model lists the reclaiming calls in the order in which they are made; a call that
-- fails is only logged, and the next one is made all the same.
pub mod Spares
use local_preview.Base.{
  ℕ, String, Bool, true, false, ◌&&◌, not, List, [], ◌∷◌, ◌++◌, if◌then◌else◌, any, str_eq, Table,
}
use local_preview.Supervise.Keys.{Key, backend, frontend, backend_key, frontend_key}
use local_preview.Db.Deploys.{ArtifactRef, DeployRow, Database, is_evicted, list_deploys_of}

pub data Reclaim : Type 0 where
  stop : Key → Reclaim
  delete_backend_artifact : ℕ → String → Reclaim
  remove_backend : String → Reclaim
  delete_frontend_artifact : ℕ → String → Reclaim
  remove_frontend : String → Reclaim
  remove_artifact : String → Reclaim
  remove_hash_logs : String → String → Reclaim

-- A call, with the name of the repo that the row belongs to.
pub record GcAction : Type 0 where
  pub repo_name : String
  pub what : Reclaim

-- What liveBe, liveFe and liveDL take from one row
abbrev pub uses_backend : String → DeployRow → Bool
uses_backend hash r = not (is_evicted r.status) && str_eq r.be_hash hash

abbrev pub uses_frontend : String → DeployRow → Bool
uses_frontend hash r = not (is_evicted r.status) && str_eq r.fe_hash hash

abbrev pub uses_artifact : String → DeployRow → Bool
uses_artifact hash r =
    not (is_evicted r.status)
    && any (λ (e : String × ArtifactRef). str_eq e.1.hash hash) r.artifacts

-- if row.BeHash != "" && !liveBe[row.BeHash]
unfoldable pub gc_backend : DeployRow → List DeployRow → List GcAction
gc_backend row remaining =
    if not (str_eq row.be_hash "") && not (any (uses_backend row.be_hash) remaining)
    then record { repo_name = row.repo_name; what = stop (backend_key row.repo_id row.be_hash) }
      ∷ record { repo_name = row.repo_name; what = delete_backend_artifact row.repo_id row.be_hash }
      ∷ record { repo_name = row.repo_name; what = remove_backend row.be_hash }
      ∷ record { repo_name = row.repo_name; what = remove_hash_logs "be" row.be_hash }
      ∷ []
    else []

-- if row.FeHash != "" && !liveFe[row.FeHash]; the first argument says that GetFrontendArtifact
-- finds a row.
unfoldable pub gc_frontend : Bool → DeployRow → List DeployRow → List GcAction
gc_frontend is_process row remaining =
    if not (str_eq row.fe_hash "") && not (any (uses_frontend row.fe_hash) remaining)
    then (if is_process
        then record {
          repo_name = row.repo_name;
          what = stop (frontend_key row.repo_id row.fe_hash row.be_hash);
        }
          ∷ record {
            repo_name = row.repo_name;
            what = delete_frontend_artifact row.repo_id row.fe_hash;
          }
          ∷ []
        else [])
      ++ record { repo_name = row.repo_name; what = remove_frontend row.fe_hash }
        ∷ record { repo_name = row.repo_name; what = remove_hash_logs "fe" row.fe_hash }
        ∷ []
    else []

-- for _, ref := range row.Artifacts
unfoldable pub gc_artifacts : String → Table String ArtifactRef → List DeployRow → List GcAction
gc_artifacts repo_name [] remaining = []
gc_artifacts repo_name ((name, ref) ∷ refs) remaining =
    let rest = gc_artifacts repo_name refs remaining in
    if any (uses_artifact ref.hash) remaining
    then rest
    else record { repo_name = repo_name; what = remove_artifact ref.hash }
      ∷ record { repo_name = repo_name; what = remove_hash_logs "dl" ref.hash }
      ∷ rest

-- GCDeploy
unfoldable pub gc_deploy : (ℕ → String → Bool) → DeployRow → Database → List GcAction
unfolding gc_backend gc_frontend gc_artifacts
gc_deploy has_frontend_artifact row db =
    let remaining = list_deploys_of row.repo_name db.deploys in
    gc_backend row remaining
    ++ gc_frontend (has_frontend_artifact row.repo_id row.fe_hash) row remaining
    ++ gc_artifacts row.repo_name row.artifacts remaining
