-- ===== src/Build/Downloads.antt =====
-- The downloads of a ready deploy, for a relation of worlds that each of their steps keeps.
use local_preview.Base.{
  ℕ, String, Bool, true, false, not, ◌&&◌, Option, none, some, List, [], ◌∷◌, if◌then◌else◌,
  if_cases,
}
use local_preview.Db.Deploys.{DeployRow, ArtifactRef, set_deploy_artifact_status}
use local_preview.Build.{World, Item, item, has, Try, ok, err, Outcome, BuildError, not_declared}
use local_preview.Build.Env.{Env, Settings, Command}
use local_preview.Build.Manifests.{load_manifest}
use local_preview.Build.Sides.{hydrate, build_side}
use local_preview.Build.Turn.{
  Refs, fail_artifact, fail_all, mark_built, close_artifact, extract_artifacts, build_artifact,
  artifact_loop, build_artifacts, build_extracted, build_declared, build_pending, build_refs,
  pending_refs,
}
use local_preview.Build.Process.{try_db}

-- A relation of worlds that the writes of an artifact's status, the fetches and the builds keep
module _ {M : Type 0} (env : Env M) (R : World → World → Type 0) (R-refl : (w : World) → R w w)
    (R-trans : (u v w : World) → R u v → R v w → R u w)
    (on_write : (id : ℕ) (name status error : String) (w : World)
      → R w (try_db (set_deploy_artifact_status id name status error w.db) w))
    (on_hydrate : (i : Item) (w : World) → R w (hydrate env i w))
    (on_build : (row : DeployRow) (i : Item) (steps : List Command) (rebuild : Bool) (w : World)
      → R w (build_side env row i steps true rebuild w).0) where
  fail_artifact_rule :
      (id : ℕ) (name : String) (e : BuildError) (w : World) → R w (fail_artifact env id name e w)
  unfolding fail_artifact
  fail_artifact_rule id name e w =
      if_cases (R w) env.cancelled _ _ (λ c. R-refl w)
        (λ c. on_write id name "failed" (env.message e) w)

  mark_built_rule : (id : ℕ) (name : String) (w : World) → R w (mark_built env id name w)
  mark_built_rule id name w = on_write id name "ready" "" w

  fail_all_rule : (id : ℕ) (e : BuildError) (rs : Refs) (w : World) → R w (fail_all env id e rs w)
  unfolding fail_all
  fail_all_rule id e [] w = R-refl w
  fail_all_rule id e ((name, ref) ∷ rs) w =
      R-trans _ _ _ (fail_artifact_rule id name e w) (fail_all_rule id e rs _)

  close_artifact_rule :
      (id : ℕ) (name : String) (u : World) (m : Outcome (Unit {0}))
      → R u m.0
      → R u (close_artifact env id name m)
  close_artifact_rule id name u (w, ok a) h = R-trans _ _ _ h (mark_built_rule id name w)
  close_artifact_rule id name u (w, err e) h = R-trans _ _ _ h (fail_artifact_rule id name e w)

  build_extracted_rule :
      (row : DeployRow) (rebuild : Bool) (name : String) (i : Item) (steps : List Command)
      (have : Bool) (r : Try (Unit {0})) (w : World)
      → R w (build_extracted env row rebuild name i steps have r w).0
  build_extracted_rule row rebuild name i steps have (err e) w = fail_artifact_rule row.id name e w
  build_extracted_rule row rebuild name i steps have (ok a) w =
      close_artifact_rule row.id name w (build_side env row i steps true rebuild w)
        (on_build row i steps rebuild w)

  build_declared_rule :
      (row : DeployRow) (rebuild : Bool) (name : String) (i : Item) (o : Option (List Command))
      (have : Bool) (w : World)
      → R w (build_declared env row rebuild name i o have w).0
  build_declared_rule row rebuild name i none have w = fail_artifact_rule row.id name not_declared w
  build_declared_rule row rebuild name i (some steps) have w =
      build_extracted_rule row rebuild name i steps have (extract_artifacts env row have) w

  build_artifact_rule :
      (row : DeployRow) (rebuild : Bool) (m : M) (r : String × ArtifactRef) (have : Bool)
      (w : World)
      → R w (build_artifact env row rebuild m r have w).0
  unfolding build_artifact
  build_artifact_rule row rebuild m (name, ref) have w =
      let i = item row.repo_name "dl" ref.hash in
      let u = if rebuild then w else hydrate env i w in
      let before : R w u = if_cases (R w) rebuild _ _ (λ e. R-refl w) (λ e. on_hydrate i w) in
      R-trans _ _ _ before (
        if_cases (λ (r : World × Bool). R u r.0) (not rebuild && has i u.local) _ _
          (λ e. mark_built_rule row.id name u)
          (λ e. build_declared_rule row rebuild name i (env.artifact_steps m name) have u))

  artifact_loop_rule :
      (row : DeployRow) (rebuild : Bool) (m : M) (rs : Refs) (have : Bool) (w : World)
      → R w (artifact_loop env row rebuild m rs have w)
  unfolding artifact_loop
  artifact_loop_rule row rebuild m [] have w = R-refl w
  artifact_loop_rule row rebuild m (r ∷ rs) have w =
      R-trans _ _ _ (build_artifact_rule row rebuild m r have w)
        (artifact_loop_rule row rebuild m rs (build_artifact env row rebuild m r have w).1 _)

  build_pending_rule :
      (row : DeployRow) (rebuild : Bool) (rs : Refs) (r : Try (M × String)) (w : World)
      → R w (build_pending env row rebuild rs r w)
  build_pending_rule row rebuild rs (err e) w = fail_all_rule row.id e rs w
  build_pending_rule row rebuild rs (ok (m, dir)) w = artifact_loop_rule row rebuild m rs false w

  pub build_artifacts_rule :
      (settings : Settings) (row : DeployRow) (rebuild : Bool) (w : World)
      → R w (build_artifacts env settings row rebuild w)
  unfolding build_artifacts
  build_artifacts_rule settings row rebuild w = go (pending_refs row.artifacts)
    where
      go : (rs : Refs) → R w (build_refs env settings row rebuild rs w)
      go [] = R-refl w
      go (r ∷ rs) =
          build_pending_rule row rebuild (r ∷ rs) (load_manifest env settings row w.repos) w
