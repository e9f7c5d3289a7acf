-- ===== src/Build/Stores.antt =====
-- What the builds and the fetches leave of the durable tier and the state directories.
use local_preview.Base.{
  ◌≡◌, refl, Bool, not, ◌&&◌, ◌||◌, Option, none, some, List, [], ◌∷◌, ◌++◌, if◌then◌else◌,
  if_cases, str_eq, length, ltb,
}
use local_preview.Db.Deploys.{DeployRow}
use local_preview.Build.{World, Item, has, Try, ok, err, Outcome, ◌>>=◌, no_dist}
use local_preview.Build.Env.{Env, Command}
use local_preview.Build.Sides.{
  enqueue_persist, hydrate, run_steps, build_side, publish_side, add_item, hash_of,
  persist_queue_size,
}

-- Nothing is taken from the durable tier or from the state directories.
pub record Stores (w w' : World) : Type 0 where
  pub same_tier : w'.tier ≡ w.tier
  pub same_state : w'.state_dirs ≡ w.state_dirs
  pub same_repos : w'.repos ≡ w.repos

pub Stores-refl : (w : World) → Stores w w
Stores-refl w = record { same_tier = refl; same_state = refl; same_repos = refl }

enqueue_persist-Stores : (i : Item) (w : World) → Stores w (enqueue_persist i w)
unfolding enqueue_persist
enqueue_persist-Stores i w = go w.tier
  where
    go :
        (t : Option (List Item))
        → Stores w (elim t [
          | none ↦ w
          | some objects ↦
              if str_eq (hash_of i) "" || not (ltb (length w.uploads) persist_queue_size)
              then w
              else record w { uploads = w.uploads ++ i ∷ [] }
        ])
    go none = Stores-refl w
    go (some objects) =
        if_cases (Stores w)
          (str_eq (hash_of i) "" || not (ltb (length w.uploads) persist_queue_size)) _ _
          (λ e. Stores-refl w)
          (λ e. record { same_tier = refl; same_state = refl; same_repos = refl })

module _ {M : Type 0} (env : Env M) where
  pub hydrate-Stores : (i : Item) (w : World) → Stores w (hydrate env i w)
  unfolding hydrate
  hydrate-Stores i w = go w.tier
    where
      go :
          (t : Option (List Item))
          → Stores w (elim t [
            | none ↦ w
            | some objects ↦
                if not (str_eq (hash_of i) "")
                  && not (has i w.local)
                  && has i objects
                  && env.fetch_side i
                then record w { local = i ∷ w.local }
                else w
          ])
      go none = Stores-refl w
      go (some objects) =
          if_cases (Stores w)
            (not (str_eq (hash_of i) "")
              && not (has i w.local)
              && has i objects
              && env.fetch_side i)
            _ _ (λ e. record { same_tier = refl; same_state = refl; same_repos = refl })
            (λ e. Stores-refl w)

  publish_side-Stores : (i : Item) (o : Bool) (w : World) → Stores w (publish_side env i o w).0
  publish_side-Stores i o w =
      if_cases (λ (m : Outcome (Unit {0})). Stores w m.0) (env.publish i o) _ _
        (λ e.
          let s = enqueue_persist-Stores i (record w { local = add_item i w.local }) in
          record { same_tier = s.same_tier; same_state = s.same_state; same_repos = s.same_repos })
        (λ e. Stores-refl w)

  pub build_side-Stores :
      (row : DeployRow) (i : Item) (steps : List Command) (out o : Bool) (w : World)
      → Stores w (build_side env row i steps out o w).0
  unfolding build_side
  build_side-Stores row i steps out o w =
      if_cases (λ (m : Outcome (Unit {0})). Stores w m.0) (not (env.open_log i)) _ _
        (λ e. Stores-refl w) (λ e. ran (run_steps env row i.0.1 steps))
    where
      ran :
          (r : Try (Unit {0}))
          → Stores w
              ((w, r) >>= λ _ w. if not out then (w, err no_dist) else publish_side env i o w).0
      ran (err e) = Stores-refl w
      ran (ok a) =
          if_cases (λ (m : Outcome (Unit {0})). Stores w m.0) (not out) _ _ (λ e. Stores-refl w)
            (λ e. publish_side-Stores i o w)
