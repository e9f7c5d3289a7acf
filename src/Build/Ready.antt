-- ===== src/Build/Ready.antt =====
-- What a build and the upload after it leave for the row that is stored.
use local_preview.Base.{
  ◌⊎◌, inl, inr, none, false, Bool-cases, Option, sym, true, ◌||◌, List, str_eq, ◌≡◌, refl, subst,
  String, Bool, some,
}
use local_preview.Db.Deploys.{
  DeployRow, get_deploy_by_id, update_deploy, set_deploy_hashes, set_deploy_artifacts,
}
use local_preview.Build.{World, Item, has, item, Try, ok, err, Outcome, ◌>>=◌}
use local_preview.Build.Env.{Env, Settings, source_gone, Saved, saved, save_failed}
use local_preview.Build.Manifests.{HashSet, load_manifest, resolve_hashes}
use local_preview.Build.Sides.{ensure_durable, hash_of}
use local_preview.Build.Process.{
  write_db, build_sides, hydrate_side, artifact_refs, build_hydrated, build_hashed, build_parsed,
  build_deploy,
}
use local_preview.Build.Changes.{Files, Files-trans}
use local_preview.Build.Grows.{build_sides-Files, hydrate_side-Files}
use local_preview.Build.Served.{
  Post, Post-bind, Post-and, Post-map, Files-Post, Holds, Provisioned, Provisioned-same, Built,
  build_sides-Built,
}
use local_preview.Build.Rows.{OnRow, RowAt, Records, write_row-Post, RowAt-Files}
use local_preview.Build.Durable.{DurableIn, Durables, ensure_durable-Durables}
use local_preview.Build.Uploads.{was_gone, Uploads, ensure_durable-Uploads}

module _ {M : Type 0} (env : Env M) where
  build_hydrated-Built :
      (row : DeployRow) (rebuild : Bool) (m : M) (hs : HashSet) (w : World)
      → Post (λ u. Files w u × Built env row rebuild m hs u) (build_hydrated env row rebuild m hs w)
  build_hydrated-Built row rebuild m hs w =
      let u = hydrate_side env rebuild (item row.repo_name "fe" hs.fe) w in
      let v = hydrate_side env rebuild (item row.repo_name "be" hs.be) u in
      Post-and env (Files w) (Built env row rebuild m hs) (build_sides env row rebuild m hs v)
        (Files-Post env w (build_sides env row rebuild m hs v) (
          Files-trans (hydrate_side-Files env rebuild (item row.repo_name "fe" hs.fe) w) (
            Files-trans (hydrate_side-Files env rebuild (item row.repo_name "be" hs.be) u)
              (build_sides-Files env row rebuild m hs v))))
        (build_sides-Built env row rebuild m hs v)

  -- What a successful buildDeploy leaves, for the hashes that it found.
  abbrev pub Finished : DeployRow → Bool → World → Type 0
  Finished row rebuild u =
      (hs : HashSet) × (m : M) × RowAt (Records row.repo_name hs) row.id u
      × Built env row rebuild m hs u

  build_hashed-Finished :
      (row : DeployRow) (rebuild : Bool) (m : M) (dir : String) (hs : HashSet) (w : World)
      → RowAt (λ d. d.repo_name ≡ row.repo_name) row.id w
      → Post (Finished row rebuild) (build_hashed env row rebuild m dir hs w)
  unfolding build_hashed set_deploy_hashes set_deploy_artifacts
  build_hashed-Finished row rebuild m dir hs w h =
      let Named : World → Type 0 = RowAt (Records row.repo_name hs) row.id in
      let set_hashes : DeployRow → DeployRow =
        λ d. record d { fe_hash = hs.fe; be_hash = hs.be; project_dir = dir } in
      let first = write_db (update_deploy row.id set_hashes w.db) w in
      let second : Unit {0} → World → Outcome (Unit {0}) = λ _ u.
        write_db (set_deploy_artifacts row.id (artifact_refs env row rebuild u hs.artifacts) u.db)
          u in
      Post-bind Named (Finished row rebuild) (first >>= second)
        (λ _. build_hydrated env row rebuild m hs)
        (Post-bind Named Named first second
          (write_row-Post (λ d. d.repo_name ≡ row.repo_name) (Records row.repo_name hs) set_hashes
            (λ d. refl) (λ d e. (e, refl, refl)) row.id w h)
          (λ a u r.
            write_row-Post (Records row.repo_name hs) (Records row.repo_name hs)
              (λ d. record d { artifacts = artifact_refs env row rebuild u hs.artifacts })
              (λ d. refl) (λ d e. e) row.id u r))
        (λ a u r.
          Post-map env (λ v. Files u v × Built env row rebuild m hs v) (Finished row rebuild)
            (λ v (f, b). (hs, m, RowAt-Files (Records row.repo_name hs) row.id u v f r, b))
            (build_hydrated env row rebuild m hs u) (build_hydrated-Built row rebuild m hs u))

  build_deploy-Finished :
      (settings : Settings) (row : DeployRow) (rebuild : Bool) (w : World)
      → RowAt (λ d. d.repo_name ≡ row.repo_name) row.id w
      → Post (Finished row rebuild) (build_deploy env settings row rebuild w)
  unfolding build_deploy
  build_deploy-Finished settings row rebuild w h = go (load_manifest env settings row w.repos)
    where
      hashed :
          (m : M) (dir : String) (r : Try HashSet)
          → Post (Finished row rebuild) ((w, r) >>= build_hashed env row rebuild m dir)
      hashed m dir (err e) = tt
      hashed m dir (ok hs) = build_hashed-Finished row rebuild m dir hs w h

      go : (r : Try (M × String)) → Post (Finished row rebuild) (build_parsed env row rebuild r w)
      go (err e) = tt
      go (ok (m, dir)) = hashed m dir (resolve_hashes env m row)

  -- Save found the artifact's directory gone, which it only does where there is a durable tier.
  abbrev pub Collected : Item → Option (List Item) → Type 0
  Collected i none = ⊥
  Collected i (some objects) = env.save i ≡ source_gone

  -- The side does not exist, or there is no durable tier, or the tier has it.
  abbrev pub Durable : Item → Option (List Item) → Type 0
  Durable i none = Unit
  Durable i (some objects) = (str_eq (hash_of i) "" || has i objects) ≡ true

  -- The side is published and durable, or was collected before its upload.
  abbrev pub Served : Item → World → Type 0
  Served i u = Collected i u.tier ⊎ (Holds i u × Durable i u.tier)

  -- Both sides of the row, and the state directory of its backend
  abbrev pub Servable : DeployRow → World → Type 0
  Servable d u =
      Served (item d.repo_name "fe" d.fe_hash) u
      × Served (item d.repo_name "be" d.be_hash) u
      × Provisioned d.repo_name d.be_hash u

  uploaded-Served :
      (i : Item) (v u : World) → Uploads env v u → Holds i v → DurableIn env i u.tier → Served i u
  uploaded-Served i v u f h d = go u.tier refl (subst (DurableIn env i) refl d)
    where
      held : was_gone (env.save i) ≡ false → Holds i u
      held n = elim (Bool-cases (str_eq (hash_of i) "")) [
        | inl e ↦ rw e refl
        | inr e ↦ rw (e, f.keeps i n (rw e at h)) refl
      ]

      saves :
          (s : Saved) (objects : List Item)
          → env.save i ≡ s
          → (str_eq (hash_of i) "" || (was_gone s || has i objects)) ≡ true
          → (env.save i ≡ source_gone)
            ⊎ (Holds i u × ((str_eq (hash_of i) "" || has i objects) ≡ true))
      saves saved objects e k = inr (held (rw e refl), k)
      saves source_gone objects e k = inl e
      saves save_failed objects e k = inr (held (rw e refl), k)

      go :
          (t : Option (List Item))
          → u.tier ≡ t
          → DurableIn env i t
          → Collected i t ⊎ (Holds i u × Durable i t)
      go none e k = inr (subst (Holds i) (sym (f.bare e)) h, tt)
      go (some objects) e k = saves (env.save i) objects refl k

  pub ensure_durable-Servable :
      (settings : Settings) (row built : DeployRow) (rebuild : Bool) (w v u : World)
      → RowAt (λ d. d.repo_name ≡ row.repo_name) row.id w
      → build_deploy env settings row rebuild w ≡ (v, ok tt)
      → get_deploy_by_id row.id v.db.deploys ≡ some built
      → ensure_durable env built.repo_name built.fe_hash built.be_hash v ≡ (u, ok tt)
      → Servable built u
  unfolding Durables
  ensure_durable-Servable settings row built rebuild w v u h b g d =
      let (hs, m, r, kept) =
        subst (Post (Finished row rebuild)) b (build_deploy-Finished settings row rebuild w h) in
      let (same_repo, same_fe, same_be) = subst (OnRow (Records row.repo_name hs)) g r in
      let sent : Uploads env v u =
        subst (λ (x : Outcome (Unit {0})). Uploads env v x.0) d
          (ensure_durable-Uploads env built.repo_name built.fe_hash built.be_hash v) in
      let held : Holds (item built.repo_name "fe" built.fe_hash) v
          × Holds (item built.repo_name "be" built.be_hash) v
          × Provisioned built.repo_name built.be_hash v =
        rw (same_repo, same_fe, same_be) (kept.0.0, kept.0.1, kept.1) in
      let durable =
        subst (Post (Durables env built.repo_name built.fe_hash built.be_hash)) d
          (ensure_durable-Durables env built.repo_name built.fe_hash built.be_hash v) in
      (
        uploaded-Served (item built.repo_name "fe" built.fe_hash) v u sent held.0 durable.0,
        uploaded-Served (item built.repo_name "be" built.be_hash) v u sent held.1 durable.1,
        Provisioned-same built.repo_name built.be_hash v u sent.same_repos sent.same_state held.2,
      )
