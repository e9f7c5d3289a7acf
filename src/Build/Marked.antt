-- ===== src/Build/Marked.antt =====
-- What holds when process has marked a deploy ready.
use local_preview.Base.{
  inl, inr, ℕ, ◌≡◌, refl, sym, subst, Bool, true, false, Option, none, some, arith, if_cases,
}
use local_preview.Db.Deploys.{
  Database, DeployRow, DeployStatus, is_ready, queued, building, ready, failed, evicted,
  get_deploy_by_id, update_deploy, set_row, set_deploy_building, set_deploy_failed,
  set_deploy_ready, Result, not_found,
}
use local_preview.Db.Deploys
use local_preview.Build.{World, Item, item, ok, err, Outcome, BuildError, database}
use local_preview.Build.Env.{Env, Settings}
use local_preview.Build.Sides.{ensure_durable}
use local_preview.Build.Process.{write_db, build_deploy}
use local_preview.Build.Request.{take_rebuild}
use local_preview.Build.Turn.{
  mark_failed, auto_start, artifacts_of, served, after_durable, make_row_ready, make_ready,
  after_build, build_row, process_row, process,
}
use local_preview.Build.Uploads.{ensure_durable-Uploads}
use local_preview.Build.Served.{Provisioned-same, Holds}
use local_preview.Build.Rows.{OnRow-map, try_row-RowAt, get-id, OnRow, RowAt, write_row-Post}
use local_preview.Build.Retains.{
  Retains, Retains-refl, Retains-trans, SameSides, build_artifacts-Retains,
}
use local_preview.Build.Served.{Post}
use local_preview.Build.Ready.{Served, Collected, Durable, Servable, ensure_durable-Servable}

module _ {M : Type 0} (env : Env M) where
  -- The row of the id is ready only if it can be served.
  abbrev pub IsServed : ℕ → World → Type 0
  IsServed id w = RowAt (λ d. is_ready d.status ≡ true → Servable env d w) id w

  unready-IsServed :
      (id : ℕ) (w : World) → RowAt (λ d. is_ready d.status ≡ false) id w → IsServed id w
  unready-IsServed id w h =
      OnRow-map _ (λ d. is_ready d.status ≡ true → Servable env d w)
        (λ d e r. absurd (ground arith)) (get_deploy_by_id id w.db.deploys) h

  mark_failed-IsServed :
      (id : ℕ) (e : BuildError) (w : World) → IsServed id (mark_failed env id e w)
  unfolding set_deploy_failed
  mark_failed-IsServed id e w =
      unready-IsServed id (mark_failed env id e w)
        (try_row-RowAt (λ d. is_ready d.status ≡ false) _ (λ d. refl) (λ d. refl) id w)

  named-IsServed :
      (built : DeployRow) (id : ℕ) (w : World)
      → Servable env built w
      → RowAt (SameSides built) id w
      → IsServed id w
  named-IsServed built id w s h =
      OnRow-map (SameSides built) (λ d. is_ready d.status ≡ true → Servable env d w)
        (λ d (r, fe, be) e. rw (r, fe, be) s) (get_deploy_by_id id w.db.deploys) h

  Retains-Servable :
      (built : DeployRow) (id : ℕ) (w w' : World)
      → Retains id w w'
      → Servable env built w
      → Servable env built w'
  Retains-Servable built id w w' r (fe, be, p) = (
    kept (item built.repo_name "fe" built.fe_hash) fe,
    kept (item built.repo_name "be" built.be_hash) be,
    Provisioned-same built.repo_name built.be_hash w w' r.stores.same_repos r.stores.same_state p,
  )
    where
      held : (i : Item) → Holds i w → Holds i w'
      held i h = ground (arith, r.keeps i)

      kept : (i : Item) → Served env i w → Served env i w'
      kept i (inl c) = inl (subst (Collected env i) (sym r.stores.same_tier) c)
      kept i (inr (h, d)) = inr (held i h, subst (Durable env i) (sym r.stores.same_tier) d)

  auto_start-Retains :
      (settings : Settings) (id : ℕ) (w : World) → Retains id w (auto_start env settings id w)
  auto_start-Retains settings id w =
      if_cases (Retains id w) settings.auto_start _ _
        (λ e. record {
          same_sides = λ built h. h;
          keeps = λ i h. h;
          stores = record { same_tier = refl; same_state = refl; same_repos = refl };
        })
        (λ e. Retains-refl id w)

  artifacts_of-Retains :
      (settings : Settings) (id : ℕ) (o : Option DeployRow) (rebuild : Bool) (w : World)
      → Retains id w (artifacts_of env settings o rebuild w)
  artifacts_of-Retains settings id none rebuild w = Retains-refl id w
  artifacts_of-Retains settings id (some row) rebuild w =
      build_artifacts-Retains env id settings row rebuild w

  served-IsServed :
      (settings : Settings) (id : ℕ) (rebuild : Bool) (built : DeployRow) (u : World)
      → get_deploy_by_id id u.db.deploys ≡ some built
      → Servable env built u
      → IsServed id (served env settings id rebuild (set_deploy_ready id u.db) u)
  unfolding set_deploy_ready
  served-IsServed settings id rebuild built u g s = go (set_deploy_ready id u.db) refl
    where
      go :
          (r : Result Database)
          → set_deploy_ready id u.db ≡ r
          → IsServed id (served env settings id rebuild r u)
      go (Deploys.err x) e =
          named-IsServed built id u s (subst (OnRow (SameSides built)) (sym g) (refl, refl, refl))
      go (Deploys.ok db) e =
          let x = record u { db = db } in
          let y = auto_start env settings id x in
          let z = artifacts_of env settings (get_deploy_by_id id y.db.deploys) rebuild y in
          let kept : Retains id x z =
            Retains-trans id x y z (auto_start-Retains settings id x)
              (artifacts_of-Retains settings id (get_deploy_by_id id y.db.deploys) rebuild y) in
          let named : RowAt (SameSides built) id x =
            subst (λ (r : Result Database). Post (RowAt (SameSides built) id) (write_db r u)) e
              (write_row-Post (SameSides built) (SameSides built) _ (λ d. refl) (λ d h. h) id u
                (subst (OnRow (SameSides built)) (sym g) (refl, refl, refl))) in
          named-IsServed built id z (Retains-Servable built id x z kept s)
            (kept.same_sides built named)

  make_ready-IsServed :
      (settings : Settings) (row : DeployRow) (rebuild : Bool) (w v : World)
      → RowAt (λ d. d.repo_name ≡ row.repo_name) row.id w
      → build_deploy env settings row rebuild w ≡ (v, ok tt)
      → IsServed row.id (make_ready env settings row.id rebuild v)
  unfolding make_ready
  make_ready-IsServed settings row rebuild w v h b = go (get_deploy_by_id row.id v.db.deploys) refl
    where
      uploaded :
          (built : DeployRow)
          → get_deploy_by_id row.id v.db.deploys ≡ some built
          → (m : Outcome (Unit {0}))
          → ensure_durable env built.repo_name built.fe_hash built.be_hash v ≡ m
          → IsServed row.id (after_durable env settings row.id rebuild m)
      uploaded built g (u, err x) d = mark_failed-IsServed row.id x u
      uploaded built g (u, ok _) d =
          let same_db : u.db ≡ v.db =
            subst (λ (x : Outcome (Unit {0})). x.0.db ≡ v.db) d
              (ensure_durable-Uploads env built.repo_name built.fe_hash built.be_hash v).same_db in
          served-IsServed settings row.id rebuild built u
            (subst (λ (db : Database). get_deploy_by_id row.id db.deploys ≡ some built)
              (sym same_db) g)
            (ensure_durable-Servable env settings row built rebuild w v u h b g d)

      go :
          (o : Option DeployRow)
          → get_deploy_by_id row.id v.db.deploys ≡ o
          → IsServed row.id (make_row_ready env settings row.id rebuild o v)
      go none e = mark_failed-IsServed row.id (database Deploys.not_found) v
      go (some built) e =
          uploaded built e (ensure_durable env built.repo_name built.fe_hash built.be_hash v) refl

  build_row-IsServed :
      (settings : Settings) (row : DeployRow) (db : Database) (w : World)
      → RowAt (λ d. d.repo_name ≡ row.repo_name) row.id (record w { db = db })
      → IsServed row.id (build_row env settings row.id row (Deploys.ok db) w)
  unfolding take_rebuild
  build_row-IsServed settings row db w h =
      let taken = take_rebuild row.id (record w { db = db }) in
      go taken.1 taken.0 h (build_deploy env settings row taken.1 taken.0) refl
    where
      go :
          (rebuild : Bool) (u : World)
          → RowAt (λ d. d.repo_name ≡ row.repo_name) row.id u
          → (m : Outcome (Unit {0})) → build_deploy env settings row rebuild u ≡ m
          → IsServed row.id (after_build env settings row.id rebuild m)
      go rebuild u h (v, err x) e = mark_failed-IsServed row.id x v
      go rebuild u h (v, ok _) e = make_ready-IsServed settings row rebuild u v h e

  turn-IsServed :
      (settings : Settings) (row : DeployRow) (w : World)
      → get_deploy_by_id row.id w.db.deploys ≡ some row
      → is_ready row.status ≡ false
      → IsServed row.id (build_row env settings row.id row (set_deploy_building row.id w.db) w)
  unfolding set_deploy_building
  turn-IsServed settings row w g n = go (set_deploy_building row.id w.db) refl
    where
      go :
          (r : Result Database)
          → set_deploy_building row.id w.db ≡ r
          → IsServed row.id (build_row env settings row.id row r w)
      go (Deploys.err x) e =
          unready-IsServed row.id w (subst (OnRow (λ d. is_ready d.status ≡ false)) (sym g) n)
      go (Deploys.ok db) e = build_row-IsServed settings row db w (
          subst
            (λ (r : Result Database).
              Post (RowAt (λ d. d.repo_name ≡ row.repo_name) row.id) (write_db r w))
            e
            (write_row-Post (λ d. d.repo_name ≡ row.repo_name) (λ d. d.repo_name ≡ row.repo_name) _
              (λ d. refl) (λ d h. h) row.id w
              (subst (OnRow (λ d. d.repo_name ≡ row.repo_name)) (sym g) refl)))

  process_row-IsServed :
      (settings : Settings) (row : DeployRow) (w : World)
      → get_deploy_by_id row.id w.db.deploys ≡ some row
      → is_ready row.status ≡ false
      → (s : DeployStatus) → is_ready s ≡ false
      → IsServed row.id (process_row env settings row.id row s w)
  process_row-IsServed settings row w g n queued h = turn-IsServed settings row w g n
  process_row-IsServed settings row w g n building h = turn-IsServed settings row w g n
  process_row-IsServed settings row w g n ready h = absurd (ground arith)
  process_row-IsServed settings row w g n failed h = turn-IsServed settings row w g n
  process_row-IsServed settings row w g n evicted h =
      unready-IsServed row.id w (subst (OnRow (λ d. is_ready d.status ≡ false)) (sym g) n)

  -- When a deploy that was not ready is ready after a worker's turn on it, then its backend, if any,
  -- has a state directory under the id of the row's repo, and each side that the row has a hash for is
  -- in the local store, and in the durable tier if there is one, whatever git, the build steps and the
  -- store return. The one exception is a side of which Save reported that its directory was already
  -- gone: that deploy is marked ready without the side.
  pub process-Servable :
      (settings : Settings) (id : ℕ) (row d : DeployRow) (w : World)
      → get_deploy_by_id id w.db.deploys ≡ some row
      → is_ready row.status ≡ false
      → get_deploy_by_id id (process env settings id w).db.deploys ≡ some d
      → is_ready d.status ≡ true
      → Servable env d (process env settings id w)
  unfolding process
  process-Servable settings id row d w g n g' r =
      subst (OnRow (λ d. is_ready d.status ≡ true → Servable env d (process env settings id w))) g'
        turned r
    where
      same : row.id ≡ id
      same = get-id id w.db.deploys row g

      turned : IsServed id (process env settings id w)
      turned = rw g (
          subst (λ (i : ℕ). IsServed i (process_row env settings i row row.status w)) same
            (process_row-IsServed settings row w
              (subst (λ (i : ℕ). get_deploy_by_id i w.db.deploys ≡ some row) (sym same) g) n
              row.status n))
