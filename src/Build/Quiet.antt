-- ===== src/Build/Quiet.antt =====
-- A worker's turn makes no deploy queued and leaves the channel alone.
use local_preview.Base.{ℕ, refl, String, Bool, true, Option, none, some, if_cases}
use local_preview.Db.Deploys.{
  Database, DeployRow, DeployStatus, ArtifactRef, queued, building, ready, failed, evicted,
  get_deploy_by_id, update_deploy, set_deploy_building, set_deploy_failed, set_deploy_ready,
  set_deploy_evicted, set_deploy_hashes, set_deploy_artifacts, set_deploy_artifact_status,
  with_status, Result,
}
use local_preview.Db.Deploys
use local_preview.Build.{World, item, BuildError, Try, ok, err, Outcome, ◌>>=◌, database}
use local_preview.Build.Env.{Env, Settings}
use local_preview.Build.Changes.{
  Advances, Files-Advances, Advances-refl, Advances-trans, Advances-bind,
}
use local_preview.Build.Grows.{
  hydrate-Files, build_side-Files, hydrate_side-Files, build_sides-Files,
}
use local_preview.Build.Uploads.{ensure_durable-Uploads, Uploads-Advances}
use local_preview.Build.Manifests.{HashSet, load_manifest, resolve_hashes}
use local_preview.Build.Sides.{ensure_durable}
use local_preview.Build.Process.{
  write_db, artifact_refs, build_deploy, build_hashed, build_hydrated, build_parsed,
}
use local_preview.Build.Request.{take_rebuild}
use local_preview.Build.Turn.{
  mark_failed, build_artifacts, auto_start, served, after_durable, make_ready, after_build,
  artifacts_of, make_row_ready, build_row,
}
use local_preview.Build.Writes.{
  try_db-Advances, set_deploy_failed-QuietWrite, set_deploy_artifact_status-QuietWrite, QuietWrite,
  set_deploy_ready-QuietWrite, set_deploy_hashes-QuietWrite, set_deploy_artifacts-QuietWrite, wrote,
  write_db-Advances,
}
use local_preview.Build.Downloads.{build_artifacts_rule}

module _ {M : Type 0} (env : Env M) where
  mark_failed-Advances : (id : ℕ) (e : BuildError) (w : World) → Advances w (mark_failed env id e w)
  mark_failed-Advances id e w =
      try_db-Advances w _ (set_deploy_failed-QuietWrite id (env.message e) w.db)

  pub build_artifacts-Advances :
      (settings : Settings) (row : DeployRow) (rebuild : Bool) (w : World)
      → Advances w (build_artifacts env settings row rebuild w)
  build_artifacts-Advances =
      build_artifacts_rule env Advances Advances-refl (λ u v w f g. Advances-trans f g)
        (λ id name status error w.
          try_db-Advances w _ (set_deploy_artifact_status-QuietWrite id name status error w.db))
        (λ i w. Files-Advances (hydrate-Files env i w))
        (λ row i steps rebuild w. Files-Advances (build_side-Files env row i steps true rebuild w))

  artifacts_of-Advances :
      (settings : Settings) (o : Option DeployRow) (rebuild : Bool) (w : World)
      → Advances w (artifacts_of env settings o rebuild w)
  artifacts_of-Advances settings none rebuild w = Advances-refl w
  artifacts_of-Advances settings (some row) rebuild w =
      build_artifacts-Advances settings row rebuild w

  auto_start-Advances :
      (settings : Settings) (id : ℕ) (w : World) → Advances w (auto_start env settings id w)
  auto_start-Advances settings id w =
      if_cases (Advances w) settings.auto_start _ _
        (λ e. record { quiet = λ j h. h; same_work = refl }) (λ e. Advances-refl w)

  served-Advances :
      (settings : Settings) (id : ℕ) (rebuild : Bool) (r : Result Database) (w : World)
      → QuietWrite w.db r
      → Advances w (served env settings id rebuild r w)
  served-Advances settings id rebuild (Deploys.err e) w q = Advances-refl w
  served-Advances settings id rebuild (Deploys.ok db) w q =
      let u = auto_start env settings id (record w { db = db }) in
      Advances-trans (wrote w db q) (
        Advances-trans (auto_start-Advances settings id (record w { db = db }))
          (artifacts_of-Advances settings (get_deploy_by_id id u.db.deploys) rebuild u))

  after_durable-Advances :
      (settings : Settings) (id : ℕ) (rebuild : Bool) (u : World) (m : Outcome (Unit {0}))
      → Advances u m.0
      → Advances u (after_durable env settings id rebuild m)
  after_durable-Advances settings id rebuild u (w, err e) h =
      Advances-trans h (mark_failed-Advances id e w)
  after_durable-Advances settings id rebuild u (w, ok a) h = Advances-trans h (
      served-Advances settings id rebuild (set_deploy_ready id w.db) w
        (set_deploy_ready-QuietWrite id w.db))

  make_ready-Advances :
      (settings : Settings) (id : ℕ) (rebuild : Bool) (w : World)
      → Advances w (make_ready env settings id rebuild w)
  unfolding make_ready
  make_ready-Advances settings id rebuild w = go (get_deploy_by_id id w.db.deploys)
    where
      go : (o : Option DeployRow) → Advances w (make_row_ready env settings id rebuild o w)
      go none = mark_failed-Advances id (database Deploys.not_found) w
      go (some d) =
          after_durable-Advances settings id rebuild w
            (ensure_durable env d.repo_name d.fe_hash d.be_hash w)
            (Uploads-Advances env (ensure_durable-Uploads env d.repo_name d.fe_hash d.be_hash w))

  build_hashed-Advances :
      (row : DeployRow) (rebuild : Bool) (m : M) (dir : String) (hs : HashSet) (w : World)
      → Advances w (build_hashed env row rebuild m dir hs w).0
  unfolding build_hashed
  build_hashed-Advances row rebuild m dir hs w =
      let write_refs : Unit {0} → World → Outcome (Unit {0}) = λ _ w.
        write_db (set_deploy_artifacts row.id (artifact_refs env row rebuild w hs.artifacts) w.db)
          w in
      let first = write_db (set_deploy_hashes row.id hs.fe hs.be dir w.db) w in
      Advances-bind w (first >>= write_refs) (λ _. build_hydrated env row rebuild m hs)
        (Advances-bind w first write_refs
          (write_db-Advances w _ (set_deploy_hashes-QuietWrite row.id hs.fe hs.be dir w.db))
          (λ _ u. write_db-Advances u _ (set_deploy_artifacts-QuietWrite row.id _ u.db)))
        (λ _ u. hydrated u)
    where
      hydrated : (u : World) → Advances u (build_hydrated env row rebuild m hs u).0
      hydrated u =
          Advances-trans
            (Files-Advances (hydrate_side-Files env rebuild (item row.repo_name "fe" hs.fe) u))
            (Advances-trans
              (Files-Advances (hydrate_side-Files env rebuild (item row.repo_name "be" hs.be) _))
              (Files-Advances (build_sides-Files env row rebuild m hs _)))

  build_deploy-Advances :
      (settings : Settings) (row : DeployRow) (rebuild : Bool) (w : World)
      → Advances w (build_deploy env settings row rebuild w).0
  unfolding build_deploy
  build_deploy-Advances settings row rebuild w = go (load_manifest env settings row w.repos)
    where
      go : (r : Try (M × String)) → Advances w (build_parsed env row rebuild r w).0
      go (err e) = Advances-refl w
      go (ok (m, dir)) =
          Advances-bind w (w, resolve_hashes env m row) (build_hashed env row rebuild m dir)
            (Advances-refl w) (build_hashed-Advances row rebuild m dir)

  after_build-Advances :
      (settings : Settings) (id : ℕ) (rebuild : Bool) (u : World) (m : Outcome (Unit {0}))
      → Advances u m.0
      → Advances u (after_build env settings id rebuild m)
  after_build-Advances settings id rebuild u (w, err e) h =
      Advances-trans h (mark_failed-Advances id e w)
  after_build-Advances settings id rebuild u (w, ok a) h =
      Advances-trans h (make_ready-Advances settings id rebuild w)

  take_rebuild-Advances : (id : ℕ) (w : World) → Advances w (take_rebuild id w).0
  unfolding take_rebuild
  take_rebuild-Advances id w = record { quiet = λ j h. h; same_work = refl }

  -- What a turn does to a row once it is marked building
  pub build_row-Advances :
      (settings : Settings) (id : ℕ) (row : DeployRow) (db : Database) (w : World)
      → Advances (record w { db = db }) (build_row env settings id row (Deploys.ok db) w)
  build_row-Advances settings id row db w =
      let taken = take_rebuild id (record w { db = db }) in
      Advances-trans (take_rebuild-Advances id (record w { db = db })) (
        after_build-Advances settings id taken.1 taken.0
          (build_deploy env settings row taken.1 taken.0)
          (build_deploy-Advances settings row taken.1 taken.0))
