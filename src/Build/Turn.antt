-- ===== src/Build/Turn.antt =====
-- buildArtifacts and process: the downloads of a ready deploy, and a worker's turn as a whole.
use local_preview.Base.{
  ℕ, String, Bool, true, false, not, ◌&&◌, Option, none, some, List, [], ◌∷◌, if◌then◌else◌, str_eq,
  Table, keep,
}
use local_preview.Db.Deploys.{
  Database, DeployRow, DeployStatus, ArtifactRef, queued, building, ready, failed, evicted,
  get_deploy_by_id, set_deploy_building, set_deploy_failed, set_deploy_ready,
  set_deploy_artifact_status, not_found, Result,
}
use local_preview.Db.Deploys
use local_preview.Build.{
  World, Item, item, has, Try, ok, err, BuildError, Outcome, database, no_scratch, archive_failed,
  not_declared,
}
use local_preview.Build.Request.{take_rebuild}
use local_preview.Build.Env.{Env, Settings, Command}
use local_preview.Build.Manifests.{load_manifest}
use local_preview.Build.Sides.{hydrate, ensure_durable, build_side}
use local_preview.Build.Process.{try_db, build_deploy}
use local_preview.Build.Queries.{list_unfinished_deploy_ids}

abbrev pub Refs : Type 0
Refs = List (String × ArtifactRef)

abbrev pub pending_refs : Table String ArtifactRef → Refs
pending_refs = keep (λ (e : String × ArtifactRef). str_eq e.1.status "building")

module _ {M : Type 0} (env : Env M) where
  -- A cancelled build is an interrupted one: its ref stays as it is.
  unfoldable pub fail_artifact : ℕ → String → BuildError → World → World
  fail_artifact id name e w =
      if env.cancelled
      then w
      else try_db (set_deploy_artifact_status id name "failed" (env.message e) w.db) w

  unfoldable pub fail_all : ℕ → BuildError → Refs → World → World
  fail_all id e [] w = w
  fail_all id e ((name, _) ∷ refs) w = fail_all id e refs (fail_artifact id name e w)

  abbrev pub mark_built : ℕ → String → World → World
  mark_built id name w = try_db (set_deploy_artifact_status id name "ready" "" w.db) w

  abbrev pub close_artifact : ℕ → String → Outcome (Unit {0}) → World
  close_artifact id name (w, ok _) = mark_built id name w
  close_artifact id name (w, err e) = fail_artifact id name e w

  -- The extraction that all artifacts of the deploy share; `true` when it is there.
  abbrev pub extract_artifacts : DeployRow → Bool → Try (Unit {0})
  extract_artifacts row have =
      if have
      then ok tt
      else if not (env.new_scratch "artifacts")
      then err no_scratch
      else if env.git.archive row.repo_name row.sha
      then ok tt
      else err archive_failed

  abbrev pub build_extracted :
      DeployRow → Bool → String → Item → List Command → Bool → Try (Unit {0}) → World → World × Bool
  build_extracted row rebuild name i steps have (err e) w = (fail_artifact row.id name e w, have)
  build_extracted row rebuild name i steps have (ok _) w =
      (close_artifact row.id name (build_side env row i steps true rebuild w), true)

  abbrev pub build_declared :
      DeployRow → Bool → String → Item → Option (List Command) → Bool → World → World × Bool
  build_declared row rebuild name i none have w = (fail_artifact row.id name not_declared w, have)
  build_declared row rebuild name i (some steps) have w =
      build_extracted row rebuild name i steps have (extract_artifacts row have) w

  -- A round of the loop of buildArtifacts, with whether the extraction is there afterwards.
  unfoldable pub build_artifact :
      DeployRow → Bool → M → String × ArtifactRef → Bool → World → World × Bool
  build_artifact row rebuild m (name, ref) have w0 =
      let i = item row.repo_name "dl" ref.hash in
      let w = if rebuild then w0 else hydrate env i w0 in
      if not rebuild && has i w.local
      then (mark_built row.id name w, have)
      else build_declared row rebuild name i (env.artifact_steps m name) have w

  unfoldable pub artifact_loop : DeployRow → Bool → M → Refs → Bool → World → World
  artifact_loop row rebuild m [] have w = w
  artifact_loop row rebuild m (r ∷ refs) have w =
      let done = build_artifact row rebuild m r have w in
      artifact_loop row rebuild m refs done.1 done.0

  abbrev pub build_pending : DeployRow → Bool → Refs → Try (M × String) → World → World
  build_pending row rebuild refs (err e) w = fail_all row.id e refs w
  build_pending row rebuild refs (ok (m, dir)) w = artifact_loop row rebuild m refs false w

  abbrev pub build_refs : Settings → DeployRow → Bool → Refs → World → World
  build_refs settings row rebuild [] w = w
  build_refs settings row rebuild (r ∷ refs) w =
      build_pending row rebuild (r ∷ refs) (load_manifest env settings row w.repos) w

  unfoldable pub build_artifacts : Settings → DeployRow → Bool → World → World
  build_artifacts settings row rebuild w =
      build_refs settings row rebuild (pending_refs row.artifacts) w

  abbrev pub mark_failed : ℕ → BuildError → World → World
  mark_failed id e w = try_db (set_deploy_failed id (env.message e) w.db) w

  -- autoStartDeploy, as far as the queue waits for it: the background start is noted.
  abbrev pub auto_start : Settings → ℕ → World → World
  auto_start settings id w = if settings.auto_start then record w { warmed = id ∷ w.warmed } else w

  abbrev pub artifacts_of : Settings → Option DeployRow → Bool → World → World
  artifacts_of settings none rebuild w = w
  artifacts_of settings (some row) rebuild w = build_artifacts settings row rebuild w

  abbrev pub artifacts_after : Settings → ℕ → Bool → World → World
  artifacts_after settings id rebuild w =
      artifacts_of settings (get_deploy_by_id id w.db.deploys) rebuild w

  abbrev pub served : Settings → ℕ → Bool → Result Database → World → World
  served settings id rebuild (Deploys.err e) w = w
  served settings id rebuild (Deploys.ok db) w =
      artifacts_after settings id rebuild (auto_start settings id (record w { db = db }))

  abbrev pub after_durable : Settings → ℕ → Bool → Outcome (Unit {0}) → World
  after_durable settings id rebuild (w, err e) = mark_failed id e w
  after_durable settings id rebuild (w, ok _) =
      served settings id rebuild (set_deploy_ready id w.db) w

  abbrev pub make_row_ready : Settings → ℕ → Bool → Option DeployRow → World → World
  make_row_ready settings id rebuild none w = mark_failed id (database not_found) w
  make_row_ready settings id rebuild (some built) w =
      after_durable settings id rebuild
        (ensure_durable env built.repo_name built.fe_hash built.be_hash w)

  -- The end of process: the sides must be durable before the deploy is ready.
  unfoldable pub make_ready : Settings → ℕ → Bool → World → World
  make_ready settings id rebuild w =
      make_row_ready settings id rebuild (get_deploy_by_id id w.db.deploys) w

  abbrev pub after_build : Settings → ℕ → Bool → Outcome (Unit {0}) → World
  after_build settings id rebuild (w, err e) = mark_failed id e w
  after_build settings id rebuild (w, ok _) = make_ready settings id rebuild w

  -- A row that is neither evicted nor ready, once it is marked building
  abbrev pub build_row : Settings → ℕ → DeployRow → Result Database → World → World
  build_row settings id row (Deploys.err e) w = w
  build_row settings id row (Deploys.ok db) w =
      let (w', rebuild) = take_rebuild id (record w { db = db }) in
      after_build settings id rebuild (build_deploy env settings row rebuild w')

  abbrev pub process_row : Settings → ℕ → DeployRow → DeployStatus → World → World
  process_row settings id row evicted w = w
  process_row settings id row ready w = build_artifacts settings row false w
  process_row settings id row _ w = build_row settings id row (set_deploy_building id w.db) w

  abbrev pub process_found : Settings → ℕ → Option DeployRow → World → World
  process_found settings id none w = w
  process_found settings id (some row) w = process_row settings id row row.status w

  unfoldable pub process : Settings → ℕ → World → World
  process settings id w = process_found settings id (get_deploy_by_id id w.db.deploys) w

  abbrev pub run_next : Settings → List ℕ → World → World
  run_next settings [] w = w
  run_next settings (id ∷ ids) w = process settings id (record w { work = ids })

  -- A worker's turn: case id := <-q.work
  unfoldable pub work_once : Settings → World → World
  work_once settings w = run_next settings w.work w

-- Start in a new process: the deploys that a shutdown interrupted are queued again, behind an empty
-- channel; the rebuild marks and the uploads that were buffered are lost.
unfoldable pub resume : World → World
resume w = record w { work = list_unfinished_deploy_ids w.db.deploys; rebuild = []; uploads = [] }
