-- ===== src/Build/Process.antt =====
-- buildDeploy, buildArtifacts and process: a worker's turn on a deploy.
use local_preview.Base.{
  String, Bool, true, false, not, ◌&&◌, ◌||◌, Option, none, some, [], ◌∷◌, if◌then◌else◌, str_eq,
  Table, String_comparable,
}
use local_preview.Db.Deploys.{
  Database, DeployRow, ArtifactRef, Sha, queued, building, ready, failed, evicted, get_deploy_by_id,
  set_deploy_building, set_deploy_failed, set_deploy_ready, set_deploy_hashes, set_deploy_artifacts,
  set_deploy_artifact_status, not_found, Result,
}
use local_preview.Db.Deploys
use local_preview.Build.{
  World, Repo, Item, item, has, Try, ok, err, Outcome, ◌>>=◌, database, no_scratch, archive_failed,
  frontend_row_failed, state_dir_failed, side_failed,
}
use local_preview.Build.Queries.{get_repo_by_name}
use local_preview.Build.Env.{Env, Settings}
use local_preview.Build.Manifests.{HashSet, load_manifest, resolve_hashes}
use local_preview.Build.Sides.{hydrate, build_frontend, build_backend}

-- A write to the database, whose error ends the build
abbrev pub write_db : Result Database → World → Outcome Unit
write_db (Deploys.ok db) w = (record w { db = db }, ok tt)
write_db (Deploys.err e) w = (w, err (database e))

-- A write whose error is only logged
abbrev pub try_db : Result Database → World → World
try_db (Deploys.ok db) w = record w { db = db }
try_db (Deploys.err e) w = w

module _ {M : Type 0} (env : Env M) where
  abbrev pub side_log : String → String → String → String
  side_log repo side hash = if str_eq hash "" then "" else env.log_path (item repo side hash)

  unfoldable pub artifact_refs :
      DeployRow → Bool → World → Table String String → Table String ArtifactRef
  artifact_refs row rebuild w [] = []
  artifact_refs row rebuild w ((name, h) ∷ hs) =
      (
        name,
        record {
          hash = h;
          log_path = env.log_path (item row.repo_name "dl" h);
          status =
              if not rebuild && has (item row.repo_name "dl" h) w.local
              then "ready"
              else "building";
          error = "";
        },
      )
      ∷ artifact_refs row rebuild w hs

  abbrev pub hydrate_side : Bool → Item → World → World
  hydrate_side rebuild i w = if not rebuild && not (str_eq i.1 "") then hydrate env i w else w

  abbrev pub needs : Bool → Item → World → Bool
  needs rebuild i w = not (str_eq i.1 "") && (rebuild || not (has i w.local))

  -- One extraction serves both sides; there is none when nothing is built.
  abbrev pub extract : DeployRow → String → Bool → World → Outcome Unit
  extract row name needed w =
      if not needed
      then (w, ok tt)
      else if not (env.new_scratch name)
      then (w, err no_scratch)
      else if env.git.archive row.repo_name row.sha
      then (w, ok tt)
      else (w, err archive_failed)

  abbrev pub wrap_error : String → Outcome Unit → Outcome Unit
  wrap_error side (w, ok _) = (w, ok tt)
  wrap_error side (w, err e) = (w, err (side_failed side e))

  abbrev pub build_when : Bool → String → (World → Outcome Unit) → World → Outcome Unit
  build_when false side build w = (w, ok tt)
  build_when true side build w = wrap_error side (build w)

  abbrev pub frontend_row : Repo → M → String → World → Outcome Unit
  frontend_row repo m fe w =
      if not (env.frontend_runs m)
      then (w, ok tt)
      else if env.create_frontend_artifact repo.id fe
      then (record w { frontend_rows = (repo.id, fe) ∷ w.frontend_rows }, ok tt)
      else (w, err frontend_row_failed)

  abbrev pub state_dir : Repo → String → World → Outcome Unit
  state_dir repo be w =
      if env.init_state_dir repo be
      then (record w { state_dirs = (repo.id, be) ∷ w.state_dirs }, ok tt)
      else (w, err state_dir_failed)

  abbrev pub provision_repo : M → HashSet → Option Repo → World → Outcome Unit
  provision_repo m hs none w = (w, err (database not_found))
  provision_repo m hs (some repo) w = frontend_row repo m hs.fe w >>= λ _ w. state_dir repo hs.be w

  -- State is provisioned before the deploy is ready.
  unfoldable pub provision : DeployRow → M → HashSet → World → Outcome Unit
  provision row m hs w =
      if str_eq hs.be ""
      then (w, ok tt)
      else provision_repo m hs (get_repo_by_name row.repo_name w.repos) w

  abbrev pub frontend_stage : DeployRow → Bool → M → HashSet → Bool → World → Outcome Unit
  frontend_stage row rebuild m hs needed =
      build_when needed "frontend" (build_frontend env row m hs.fe rebuild)

  abbrev pub backend_stage : DeployRow → Bool → M → HashSet → Bool → World → Outcome Unit
  backend_stage row rebuild m hs needed =
      build_when needed "backend" (build_backend env row m hs.be rebuild)

  abbrev pub both_stages : DeployRow → Bool → M → HashSet → Bool → Bool → World → Outcome Unit
  both_stages row rebuild m hs need_fe need_be w =
      extract row "build" (need_fe || need_be) w
      >>= (λ _. frontend_stage row rebuild m hs need_fe)
      >>= (λ _. backend_stage row rebuild m hs need_be)

  -- What buildDeploy does once the sides are hydrated
  unfoldable pub build_sides : DeployRow → Bool → M → HashSet → World → Outcome Unit
  build_sides row rebuild m hs w =
      both_stages row rebuild m hs (needs rebuild (item row.repo_name "fe" hs.fe) w)
        (needs rebuild (item row.repo_name "be" hs.be) w) w
      >>= λ _. provision row m hs

  abbrev pub build_hydrated : DeployRow → Bool → M → HashSet → World → Outcome Unit
  build_hydrated row rebuild m hs w = build_sides row rebuild m hs (
      hydrate_side rebuild (item row.repo_name "be" hs.be)
        (hydrate_side rebuild (item row.repo_name "fe" hs.fe) w))

  -- The hashes and the artifact refs are recorded before anything is built.
  unfoldable pub build_hashed : DeployRow → Bool → M → String → HashSet → World → Outcome Unit
  build_hashed row rebuild m dir hs w =
      write_db (set_deploy_hashes row.id hs.fe hs.be dir w.db) w
      >>= (λ _ w.
          write_db (set_deploy_artifacts row.id (artifact_refs row rebuild w hs.artifacts) w.db) w)
      >>= λ _. build_hydrated row rebuild m hs

  abbrev pub build_parsed : DeployRow → Bool → Try (M × String) → World → Outcome Unit
  build_parsed row rebuild (err e) w = (w, err e)
  build_parsed row rebuild (ok (m, dir)) w =
      (w, resolve_hashes env m row) >>= build_hashed row rebuild m dir

  unfoldable pub build_deploy : Settings → DeployRow → Bool → World → Outcome Unit
  build_deploy settings row rebuild w =
      build_parsed row rebuild (load_manifest env settings row w.repos) w
