-- ===== src/Build/Writes.antt =====
-- The writes of the queue to the database, none of which makes a deploy queued.
use local_preview.Base.{ℕ, ◌≡◌, refl, String, true, Option, none, some, Table}
use local_preview.Db.Deploys.{
  Database, DeployRow, DeployStatus, ArtifactRef, queued, building, ready, failed, evicted,
  get_deploy_by_id, update_deploy, set_deploy_building, set_deploy_failed, set_deploy_ready,
  set_deploy_evicted, set_deploy_hashes, set_deploy_artifacts, set_deploy_artifact_status,
  with_status, Result,
}
use local_preview.Db.Deploys
use local_preview.Build.{World}
use local_preview.Build.Changes.{is_queued, Quiet, Advances, Advances-refl, update_deploy-Quiet}
use local_preview.Build.Process.{write_db, try_db}

-- A write that makes nothing queued, if it succeeds
abbrev pub QuietWrite : Database → Result Database → Type 0
QuietWrite db (Deploys.ok db') = Quiet db db'
QuietWrite db (Deploys.err e) = Unit

pub update_deploy-QuietWrite :
    (f : DeployRow → DeployRow)
    → ((d : DeployRow) → (f d).id ≡ d.id)
    → ((d : DeployRow) → is_queued (f d).status ≡ true → is_queued d.status ≡ true)
    → (id : ℕ) (db : Database) → QuietWrite db (update_deploy id f db)
update_deploy-QuietWrite f same q id db = go (update_deploy id f db) refl
  where
    go : (r : Result Database) → update_deploy id f db ≡ r → QuietWrite db r
    go (Deploys.ok db') e = update_deploy-Quiet f same q id db db' e
    go (Deploys.err x) e = tt

pub set_deploy_building-QuietWrite :
    (id : ℕ) (db : Database) → QuietWrite db (set_deploy_building id db)
unfolding set_deploy_building is_queued
set_deploy_building-QuietWrite id db = update_deploy-QuietWrite _ (λ d. refl) (λ d h. cc) id db

pub set_deploy_ready-QuietWrite : (id : ℕ) (db : Database) → QuietWrite db (set_deploy_ready id db)
unfolding set_deploy_ready is_queued
set_deploy_ready-QuietWrite id db = update_deploy-QuietWrite _ (λ d. refl) (λ d h. cc) id db

pub set_deploy_failed-QuietWrite :
    (id : ℕ) (msg : String) (db : Database) → QuietWrite db (set_deploy_failed id msg db)
unfolding set_deploy_failed is_queued
set_deploy_failed-QuietWrite id msg db = update_deploy-QuietWrite _ (λ d. refl) (λ d h. cc) id db

pub set_deploy_evicted-QuietWrite :
    (id : ℕ) (db : Database) → QuietWrite db (set_deploy_evicted id db)
unfolding set_deploy_evicted is_queued
set_deploy_evicted-QuietWrite id db = update_deploy-QuietWrite _ (λ d. refl) (λ d h. cc) id db

pub set_deploy_hashes-QuietWrite :
    (id : ℕ) (fe be dir : String) (db : Database)
    → QuietWrite db (set_deploy_hashes id fe be dir db)
unfolding set_deploy_hashes
set_deploy_hashes-QuietWrite id fe be dir db =
    update_deploy-QuietWrite _ (λ d. refl) (λ d h. h) id db

pub set_deploy_artifacts-QuietWrite :
    (id : ℕ) (refs : Table String ArtifactRef) (db : Database)
    → QuietWrite db (set_deploy_artifacts id refs db)
unfolding set_deploy_artifacts
set_deploy_artifacts-QuietWrite id refs db = update_deploy-QuietWrite _ (λ d. refl) (λ d h. h) id db

pub set_deploy_artifact_status-QuietWrite :
    (id : ℕ) (name status error : String) (db : Database)
    → QuietWrite db (set_deploy_artifact_status id name status error db)
unfolding set_deploy_artifact_status
set_deploy_artifact_status-QuietWrite id name status error db = row (get_deploy_by_id id db.deploys)
  where
    refs :
        (o : Option (Table String ArtifactRef))
        → QuietWrite db (elim o [
          | none ↦ Deploys.err Deploys.not_found
          | some refs ↦ set_deploy_artifacts id refs db
        ])
    refs none = tt
    refs (some r) = set_deploy_artifacts-QuietWrite id r db

    row :
        (o : Option DeployRow)
        → QuietWrite db (elim o [
          | none ↦ Deploys.err Deploys.not_found
          | some d ↦ elim (with_status name status error d.artifacts) [
            | none ↦ Deploys.err Deploys.not_found
            | some refs ↦ set_deploy_artifacts id refs db
          ]
        ])
    row none = tt
    row (some d) = refs (with_status name status error d.artifacts)

pub wrote : (w : World) (db : Database) → Quiet w.db db → Advances w (record w { db = db })
wrote w db q = record { quiet = q; same_work = refl }

pub write_db-Advances :
    (w : World) (r : Result Database) → QuietWrite w.db r → Advances w (write_db r w).0
write_db-Advances w (Deploys.ok db) q = wrote w db q
write_db-Advances w (Deploys.err e) q = Advances-refl w

pub try_db-Advances :
    (w : World) (r : Result Database) → QuietWrite w.db r → Advances w (try_db r w)
try_db-Advances w (Deploys.ok db) q = wrote w db q
try_db-Advances w (Deploys.err e) q = Advances-refl w
