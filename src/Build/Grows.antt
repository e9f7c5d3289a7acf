-- ===== src/Build/Grows.antt =====
-- Building the sides of a commit touches neither the database nor the queue, and removes no file.
use local_preview.Base.{
  ◌≡◌, refl, String, Bool, true, false, not, ◌&&◌, ◌||◌, Option, none, some, List, [], ◌∷◌, ◌++◌,
  arith, if◌then◌else◌, if_cases, str_eq, length, ltb,
}
use local_preview.Db.Deploys.{DeployRow}
use local_preview.Build.{World, Item, item, has, Repo, ok, err, Outcome, ◌>>=◌}
use local_preview.Build.Env.{Env, Command}
use local_preview.Build.Changes.{Files, Files-refl, Files-trans, Files-bind}
use local_preview.Build.Queries.{get_repo_by_name}
use local_preview.Build.Manifests.{HashSet}
use local_preview.Build.Sides.{
  enqueue_persist, hydrate, run_steps, build_side, build_frontend, build_backend, add_item,
  publish_side, hash_of, persist_queue_size,
}
use local_preview.Build.Process.{
  hydrate_side, extract, build_when, wrap_error, frontend_row, state_dir, provision, provision_repo,
  build_sides, needs, frontend_stage, backend_stage, both_stages,
}

pub has-add_item : (i j : Item) (is : List Item) → has i is ≡ true → has i (add_item j is) ≡ true
has-add_item i j is h = ground arith

-- Some files more, and a change of the buffered uploads
with_file :
    (w w' : World)
    → w'.db ≡ w.db
    → w'.work ≡ w.work
    → w'.repos ≡ w.repos
    → (j : Item) → w'.local ≡ j ∷ w.local
    → Files w w'
with_file w w' d k r j l = record {
  same_db = d;
  same_work = k;
  same_repos = r;
  keeps = λ i h. rw l (ground arith);
}

with_uploads : (w : World) (us : List Item) → Files w (record w { uploads = us })
with_uploads w us = record { same_db = refl; same_work = refl; same_repos = refl; keeps = λ i h. h }

pub enqueue_persist-Files : (i : Item) (w : World) → Files w (enqueue_persist i w)
unfolding enqueue_persist
enqueue_persist-Files i w = go w.tier
  where
    go :
        (t : Option (List Item))
        → Files w (elim t [
          | none ↦ w
          | some objects ↦
              if str_eq (hash_of i) "" || not (ltb (length w.uploads) persist_queue_size)
              then w
              else record w { uploads = w.uploads ++ i ∷ [] }
        ])
    go none = Files-refl w
    go (some objects) =
        if_cases (Files w)
          (str_eq (hash_of i) "" || not (ltb (length w.uploads) persist_queue_size)) _ _
          (λ e. Files-refl w) (λ e. with_uploads w (w.uploads ++ i ∷ []))

module _ {M : Type 0} (env : Env M) where
  pub hydrate-Files : (i : Item) (w : World) → Files w (hydrate env i w)
  unfolding hydrate
  hydrate-Files i w = go w.tier
    where
      go :
          (t : Option (List Item))
          → Files w (elim t [
            | none ↦ w
            | some objects ↦
                if not (str_eq (hash_of i) "")
                  && not (has i w.local)
                  && has i objects
                  && env.fetch_side i
                then record w { local = i ∷ w.local }
                else w
          ])
      go none = Files-refl w
      go (some objects) =
          if_cases (Files w)
            (not (str_eq (hash_of i) "")
              && not (has i w.local)
              && has i objects
              && env.fetch_side i)
            _ _ (λ e. with_file w _ refl refl refl i refl) (λ e. Files-refl w)

  publish_side-Files : (i : Item) (o : Bool) (w : World) → Files w (publish_side env i o w).0
  publish_side-Files i o w =
      if_cases (λ (m : Outcome (Unit {0})). Files w m.0) (env.publish i o) _ _
        (λ e. Files-trans published (enqueue_persist-Files i _)) (λ e. Files-refl w)
    where
      published : Files w (record w { local = add_item i w.local })
      published = record {
        same_db = refl;
        same_work = refl;
        same_repos = refl;
        keeps = λ j h. has-add_item j i w.local h;
      }

  pub build_side-Files :
      (row : DeployRow) (i : Item) (steps : List Command) (out o : Bool) (w : World)
      → Files w (build_side env row i steps out o w).0
  unfolding build_side
  build_side-Files row i steps out o w =
      if_cases (λ (m : Outcome (Unit {0})). Files w m.0) (not (env.open_log i)) _ _
        (λ e. Files-refl w)
        (λ e.
          Files-bind w (w, run_steps env row i.0.1 steps) _ (Files-refl w)
            λ a u.
              if_cases (λ (m : Outcome (Unit {0})). Files u m.0) (not out) _ _ (λ e. Files-refl u)
                (λ e. publish_side-Files i o u))

  pub extract-Files :
      (row : DeployRow) (name : String) (n : Bool) (w : World)
      → Files w (extract env row name n w).0
  extract-Files row name n w =
      let P : Outcome (Unit {0}) → Type 0 = λ m. Files w m.0 in
      if_cases P (not n) _ _ (λ e. Files-refl w)
        λ e.
          if_cases P (not (env.new_scratch name)) _ _ (λ e. Files-refl w)
            λ e.
              if_cases P (env.git.archive row.repo_name row.sha) _ _ (λ e. Files-refl w)
                λ e. Files-refl w

  pub wrap_error-Files :
      (side : String) (u : World) (m : Outcome (Unit {0}))
      → Files u m.0
      → Files u (wrap_error env side m).0
  wrap_error-Files side u (w, ok a) h = h
  wrap_error-Files side u (w, err e) h = h

  build_when-Files :
      (b : Bool) (side : String) (build : World → Outcome (Unit {0})) (w : World)
      → Files w (build w).0
      → Files w (build_when env b side build w).0
  build_when-Files false side build w h = Files-refl w
  build_when-Files true side build w h = wrap_error-Files side w (build w) h

  pub frontend_row-Files :
      (repo : Repo) (m : M) (fe : String) (w : World) → Files w (frontend_row env repo m fe w).0
  frontend_row-Files repo m fe w =
      let P : Outcome (Unit {0}) → Type 0 = λ m. Files w m.0 in
      if_cases P (not (env.frontend_runs m)) _ _ (λ e. Files-refl w)
        λ e.
          if_cases P (env.create_frontend_artifact repo.id fe) _ _
            (λ e. record { same_db = refl; same_work = refl; same_repos = refl; keeps = λ i h. h })
            (λ e. Files-refl w)

  state_dir-Files : (repo : Repo) (be : String) (w : World) → Files w (state_dir env repo be w).0
  state_dir-Files repo be w =
      if_cases (λ (m : Outcome (Unit {0})). Files w m.0) (env.init_state_dir repo be) _ _
        (λ e. record { same_db = refl; same_work = refl; same_repos = refl; keeps = λ i h. h })
        (λ e. Files-refl w)

  pub provision-Files :
      (row : DeployRow) (m : M) (hs : HashSet) (w : World) → Files w (provision env row m hs w).0
  unfolding provision
  provision-Files row m hs w =
      if_cases (λ (m : Outcome (Unit {0})). Files w m.0) (str_eq hs.be "") _ _ (λ e. Files-refl w)
        (λ e. go (get_repo_by_name row.repo_name w.repos))
    where
      go : (o : Option Repo) → Files w (provision_repo env m hs o w).0
      go none = Files-refl w
      go (some repo) =
          Files-bind w (frontend_row env repo m hs.fe w) _ (frontend_row-Files repo m hs.fe w)
            λ a. state_dir-Files repo hs.be

  pub frontend_stage-Files :
      (row : DeployRow) (rebuild : Bool) (m : M) (hs : HashSet) (n : Bool) (w : World)
      → Files w (frontend_stage env row rebuild m hs n w).0
  frontend_stage-Files row rebuild m hs n w =
      build_when-Files n "frontend" (build_frontend env row m hs.fe rebuild) w (
        build_side-Files row (item row.repo_name "fe" hs.fe) (env.frontend_steps m)
          (env.frontend_runs m || env.has_dist m row) rebuild w)

  pub backend_stage-Files :
      (row : DeployRow) (rebuild : Bool) (m : M) (hs : HashSet) (n : Bool) (w : World)
      → Files w (backend_stage env row rebuild m hs n w).0
  backend_stage-Files row rebuild m hs n w =
      build_when-Files n "backend" (build_backend env row m hs.be rebuild) w
        (build_side-Files row (item row.repo_name "be" hs.be) (env.backend_steps m) true rebuild w)

  pub both_stages-Files :
      (row : DeployRow) (rebuild : Bool) (m : M) (hs : HashSet) (fe be : Bool) (w : World)
      → Files w (both_stages env row rebuild m hs fe be w).0
  both_stages-Files row rebuild m hs fe be w =
      let first = extract env row "build" (fe || be) w in
      Files-bind w (first >>= λ _. frontend_stage env row rebuild m hs fe)
        (λ _. backend_stage env row rebuild m hs be)
        (Files-bind w first (λ _. frontend_stage env row rebuild m hs fe)
          (extract-Files row "build" (fe || be) w) (λ _. frontend_stage-Files row rebuild m hs fe))
        (λ _. backend_stage-Files row rebuild m hs be)

  pub build_sides-Files :
      (row : DeployRow) (rebuild : Bool) (m : M) (hs : HashSet) (w : World)
      → Files w (build_sides env row rebuild m hs w).0
  unfolding build_sides
  build_sides-Files row rebuild m hs w =
      let fe = needs env rebuild (item row.repo_name "fe" hs.fe) w in
      let be = needs env rebuild (item row.repo_name "be" hs.be) w in
      Files-bind w (both_stages env row rebuild m hs fe be w) (λ _. provision env row m hs)
        (both_stages-Files row rebuild m hs fe be w) (λ _. provision-Files row m hs)

  pub hydrate_side-Files : (b : Bool) (i : Item) (w : World) → Files w (hydrate_side env b i w)
  hydrate_side-Files b i w =
      if_cases (Files w) (not b && not (str_eq i.1 "")) _ _ (λ e. hydrate-Files i w)
        (λ e. Files-refl w)
