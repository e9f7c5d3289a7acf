-- ===== src/Build/Served.antt =====
-- What a successful build has put in place before the deploy is marked ready.
use local_preview.Base.{
  ◌==◌, ==_iff, ◌&&◌, ◌⊎◌, inl, inr, sym, subst, ℕ, ◌≡◌, refl, String, Bool, true, false, not, ◌||◌,
  Option, none, some, List, arith, if◌then◌else◌, if_cases, any, str_eq, same_refl, pair_same,
  String_comparable, pair_comparable,
}
use local_preview.Db.Deploys.{DeployRow}
use local_preview.Build.{World, Repo, Item, item, has, Try, ok, err, Outcome, ◌>>=◌, no_dist}
use local_preview.Build.Env.{Env, Command}
use local_preview.Build.Manifests.{HashSet}
use local_preview.Build.Queries.{get_repo_by_name}
use local_preview.Build.Sides.{
  run_steps, build_side, build_frontend, build_backend, publish_side, add_item, hash_of,
}
use local_preview.Build.Process.{
  needs, extract, wrap_error, build_when, frontend_row, state_dir, provision_repo, provision,
  frontend_stage, backend_stage, both_stages, build_sides,
}
use local_preview.Build.Changes.{Files, Files-bind}
use local_preview.Build.Grows.{
  frontend_row-Files, enqueue_persist-Files, extract-Files, frontend_stage-Files,
  backend_stage-Files, provision-Files,
}

-- `P` of the world that a successful part leaves.
abbrev pub Post {ℓ} : {A : Type 0} → (World → Type ℓ) → Outcome A → Type ℓ
Post P (w, ok a) = P w
Post P (w, err e) = Unit

pub Post-bind {ℓ κ} :
    {A B : Type 0} (Q : World → Type κ) (P : World → Type ℓ) (m : Outcome A)
    (f : A → World → Outcome B)
    → Post Q m
    → ((a : A) (w : World) → Q w → Post P (f a w))
    → Post P (m >>= f)
Post-bind Q P (w, ok a) f h k = k a w h
Post-bind Q P (w, err e) f h k = tt

-- The side does not exist, or is published.
abbrev pub Holds : Item → World → Type 0
Holds i w = (str_eq (hash_of i) "" || has i w.local) ≡ true

abbrev pub has_state : ℕ → String → List (ℕ × String) → Bool
has_state repo_id be = any (λ (p : ℕ × String). p.0 == repo_id && str_eq p.1 be)

-- There is no backend, or the repo of the name has a state directory for it.
abbrev pub Provisioned : String → String → World → Type 0
Provisioned name be w =
    (str_eq be "" ≡ true)
    ⊎ ((repo : Repo) × (get_repo_by_name name w.repos ≡ some repo)
        × (has_state repo.id be w.state_dirs ≡ true))

pub Provisioned-same :
    (name be : String) (w w' : World)
    → w'.repos ≡ w.repos
    → w'.state_dirs ≡ w.state_dirs
    → Provisioned name be w
    → Provisioned name be w'
Provisioned-same name be w w' r d (inl e) = inl e
Provisioned-same name be w w' r d (inr (repo, g, h)) = inr (
  repo,
  subst (λ (rs : List Repo). get_repo_by_name name rs ≡ some repo) (sym r) g,
  subst (λ (ds : List (ℕ × String)). has_state repo.id be ds ≡ true) (sym d) h,
)

pub Files-Holds : (i : Item) (w w' : World) → Files w w' → Holds i w → Holds i w'
Files-Holds i w w' f h = ground (arith, f.keeps i)

pub item_same : (i : Item) → pair_same i i ≡ true
item_same i = same_refl i

pub has-add_self : (i : Item) (is : List Item) → has i (add_item i is) ≡ true
has-add_self i is = ground (arith, item_same i)

module _ {M : Type 0} (env : Env M) where
  publish_side-Holds : (i : Item) (o : Bool) (w : World) → Post (Holds i) (publish_side env i o w)
  publish_side-Holds i o w =
      if_cases (Post (Holds i)) (env.publish i o) _ _
        (λ e.
          Files-Holds i _ _ (enqueue_persist-Files i (record w { local = add_item i w.local }))
            (there i w))
        (λ e. tt)
    where
      there : (i : Item) (w : World) → Holds i (record w { local = add_item i w.local })
      there i w = ground (arith, has-add_self i w.local)

  build_side-Holds :
      (row : DeployRow) (i : Item) (steps : List Command) (out o : Bool) (w : World)
      → Post (Holds i) (build_side env row i steps out o w)
  unfolding build_side
  build_side-Holds row i steps out o w =
      if_cases (Post (Holds i)) (not (env.open_log i)) _ _ (λ e. tt)
        (λ e. ran (run_steps env row i.0.1 steps))
    where
      ran :
          (r : Try (Unit {0}))
          → Post
              (Holds i)
              ((w, r) >>= λ _ w. if not out then (w, err no_dist) else publish_side env i o w)
      ran (err e) = tt
      ran (ok a) = if_cases (Post (Holds i)) (not out) _ _ (λ e. tt) (λ e. publish_side-Holds i o w)

  wrap_error-Post :
      (P : World → Type 0) (side : String) (m : Outcome (Unit {0}))
      → Post P m
      → Post P (wrap_error env side m)
  wrap_error-Post P side (w, ok a) h = h
  wrap_error-Post P side (w, err e) h = h

  -- A side that is built is published, and one that is not built was published already.
  build_when-Holds :
      (i : Item) (b : Bool) (side : String) (build : World → Outcome (Unit {0})) (w : World)
      → Post (Holds i) (build w)
      → (b ≡ false → Holds i w)
      → Post (Holds i) (build_when env b side build w)
  build_when-Holds i false side build w h k = k refl
  build_when-Holds i true side build w h k = wrap_error-Post (Holds i) side (build w) h

  not_needed : (rebuild : Bool) (i : Item) (w : World) → needs env rebuild i w ≡ false → Holds i w
  not_needed rebuild i w h = ground arith

  pub Files-Post : {A : Type 0} (w : World) (m : Outcome A) → Files w m.0 → Post (Files w) m
  Files-Post w (u, ok a) f = f
  Files-Post w (u, err e) f = tt

  pub Post-and :
      (P Q : World → Type 0) (m : Outcome (Unit {0}))
      → Post P m
      → Post Q m
      → Post (λ w. P w × Q w) m
  Post-and P Q (w, ok a) p q = (p, q)
  Post-and P Q (w, err e) p q = tt

  pub Post-map :
      (P Q : World → Type 0)
      → ((w : World) → P w → Q w)
      → (m : Outcome (Unit {0})) → Post P m
      → Post Q m
  Post-map P Q f (w, ok a) p = f w p
  Post-map P Q f (w, err e) p = tt

  module _ (row : DeployRow) (rebuild : Bool) (m : M) (hs : HashSet) where
    abbrev fe_item : Item
    fe_item = item row.repo_name "fe" hs.fe

    abbrev be_item : Item
    be_item = item row.repo_name "be" hs.be

    frontend_stage-Holds :
        (n : Bool) (w : World)
        → (n ≡ false → Holds fe_item w)
        → Post (Holds fe_item) (frontend_stage env row rebuild m hs n w)
    frontend_stage-Holds n w h =
        build_when-Holds fe_item n "frontend" (build_frontend env row m hs.fe rebuild) w
          (build_side-Holds row fe_item (env.frontend_steps m)
            (env.frontend_runs m || env.has_dist m row) rebuild w)
          h

    backend_stage-Holds :
        (n : Bool) (w : World)
        → (n ≡ false → Holds be_item w)
        → Post (Holds be_item) (backend_stage env row rebuild m hs n w)
    backend_stage-Holds n w h =
        build_when-Holds be_item n "backend" (build_backend env row m hs.be rebuild) w
          (build_side-Holds row be_item (env.backend_steps m) true rebuild w) h

    both_stages-Holds :
        (w : World) (fe be : Bool)
        → (fe ≡ false → Holds fe_item w)
        → (be ≡ false → Holds be_item w)
        → Post (λ u. Holds fe_item u × Holds be_item u) (both_stages env row rebuild m hs fe be w)
    both_stages-Holds w fe be hf hb =
        let first = extract env row "build" (fe || be) w in
        let second : Unit {0} → World → Outcome (Unit {0}) =
          λ _. frontend_stage env row rebuild m hs fe in
        let third : Unit {0} → World → Outcome (Unit {0}) =
          λ _. backend_stage env row rebuild m hs be in
        Post-bind (λ u. Files w u × Holds fe_item u) (λ u. Holds fe_item u × Holds be_item u)
          (first >>= second) third
          (Post-and (Files w) (Holds fe_item) (first >>= second)
            (Files-Post w (first >>= second) (
              Files-bind w first second (extract-Files env row "build" (fe || be) w)
                (λ _. frontend_stage-Files env row rebuild m hs fe)))
            (Post-bind (Files w) (Holds fe_item) first second
              (Files-Post w first (extract-Files env row "build" (fe || be) w))
              (λ a u f. frontend_stage-Holds fe u (λ e. Files-Holds fe_item w u f (hf e)))))
          (λ a u (f, h).
            Post-and (Holds fe_item) (Holds be_item) (third tt u)
              (Post-map (Files u) (Holds fe_item) (λ v g. Files-Holds fe_item u v g h) (third tt u)
                (Files-Post u (third tt u) (backend_stage-Files env row rebuild m hs be u)))
              (backend_stage-Holds be u (λ e. Files-Holds be_item w u f (hb e))))

    state_dir-Provisioned :
        (repo : Repo) (w : World)
        → get_repo_by_name row.repo_name w.repos ≡ some repo
        → Post (Provisioned row.repo_name hs.be) (state_dir env repo hs.be w)
    state_dir-Provisioned repo w g =
        if_cases (Post (Provisioned row.repo_name hs.be)) (env.init_state_dir repo hs.be) _ _
          (λ e. inr (repo, g, ground (arith, same_refl hs.be, ==_iff repo.id repo.id))) (λ e. tt)

    provision-Provisioned :
        (w : World) → Post (Provisioned row.repo_name hs.be) (provision env row m hs w)
    unfolding provision
    provision-Provisioned w =
        if_cases (Post (Provisioned row.repo_name hs.be)) (str_eq hs.be "") _ _ (λ e. inl e)
          (λ e. go (get_repo_by_name row.repo_name w.repos) refl)
      where
        go :
            (o : Option Repo)
            → get_repo_by_name row.repo_name w.repos ≡ o
            → Post (Provisioned row.repo_name hs.be) (provision_repo env m hs o w)
        go none g = tt
        go (some repo) g =
            Post-bind (Files w) (Provisioned row.repo_name hs.be) (frontend_row env repo m hs.fe w)
              (λ _. state_dir env repo hs.be)
              (Files-Post w (frontend_row env repo m hs.fe w)
                (frontend_row-Files env repo m hs.fe w))
              (λ a u f. state_dir-Provisioned repo u (
                subst (λ (rs : List Repo). get_repo_by_name row.repo_name rs ≡ some repo)
                  (sym f.same_repos) g))

    abbrev pub Built : World → Type 0
    Built u = (Holds fe_item u × Holds be_item u) × Provisioned row.repo_name hs.be u

    pub build_sides-Built : (w : World) → Post Built (build_sides env row rebuild m hs w)
    unfolding build_sides
    build_sides-Built w =
        let fe = needs env rebuild fe_item w in
        let be = needs env rebuild be_item w in
        Post-bind (λ u. Holds fe_item u × Holds be_item u) Built
          (both_stages env row rebuild m hs fe be w) (λ _. provision env row m hs)
          (both_stages-Holds w fe be (not_needed rebuild fe_item w) (not_needed rebuild be_item w))
          (λ a u (hf, hb).
            Post-and (λ v. Holds fe_item v × Holds be_item v) (Provisioned row.repo_name hs.be)
              (provision env row m hs u)
              (Post-map (Files u) (λ v. Holds fe_item v × Holds be_item v)
                (λ v g. (Files-Holds fe_item u v g hf, Files-Holds be_item u v g hb))
                (provision env row m hs u)
                (Files-Post u (provision env row m hs u) (provision-Files env row m hs u)))
              (provision-Provisioned u))
