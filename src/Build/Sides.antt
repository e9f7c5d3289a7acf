-- ===== src/Build/Sides.antt =====
-- The durable tier as the queue uses it, and the build of one side.
use local_preview.Base.{
  keep, pair_same, String_comparable, pair_comparable, ℕ, String, Bool, true, not, ◌&&◌, ◌||◌,
  Option, none, some, List, [], ◌∷◌, ◌++◌, if◌then◌else◌, str_eq, length, ltb,
}
use local_preview.Db.Deploys.{DeployRow}
use local_preview.Build.{
  World, Item, item, has, Try, ok, err, Outcome, ◌>>=◌, step_failed, publish_failed, persist_failed,
  no_dist, no_log,
}
use local_preview.Build.Env.{Env, Command, saved, source_gone, save_failed, Saved}

abbrev pub hash_of : Item → String
hash_of (_, hash) = hash

-- A published directory stays where it is.
abbrev pub add_item : Item → List Item → List Item
add_item i is = if has i is then is else i ∷ is

abbrev pub persist_queue_size : ℕ
persist_queue_size = 256

-- enqueuePersist: a full buffer drops the job.
unfoldable pub enqueue_persist : Item → World → World
enqueue_persist i w = elim w.tier [
  | none ↦ w
  | some objects ↦
      if str_eq (hash_of i) "" || not (ltb (length w.uploads) persist_queue_size)
      then w
      else record w { uploads = w.uploads ++ i ∷ [] }
]

-- A directory that collection has removed
abbrev pub without_item : Item → List Item → List Item
without_item i = keep (λ j. not (pair_same i j))

module _ {M : Type 0} (env : Env M) where
  -- hydrate, and Hydrate of internal/store/hydrate.go
  unfoldable pub hydrate : Item → World → World
  hydrate i w = elim w.tier [
    | none ↦ w
    | some objects ↦
        if not (str_eq (hash_of i) "") && not (has i w.local) && has i objects && env.fetch_side i
        then record w { local = i ∷ w.local }
        else w
  ]

  -- ErrSourceGone says that the directory is gone; it counts as a success.
  abbrev pub after_save : Saved → Item → List Item → World → Outcome Unit
  after_save saved i objects w = (record w { tier = some (add_item i objects) }, ok tt)
  after_save source_gone i objects w = (record w { local = without_item i w.local }, ok tt)
  after_save save_failed i objects w = (w, err (persist_failed i.0.1))

  abbrev pub persist_to : Option (List Item) → Item → World → Outcome Unit
  persist_to none i w = (w, ok tt)
  persist_to (some objects) i w =
      if str_eq (hash_of i) "" then (w, ok tt) else after_save (env.save i) i objects w

  -- persistSide; the artifact's directory has a name for each of the three sides.
  unfoldable pub persist_side : Item → World → Outcome Unit
  persist_side i w = persist_to w.tier i w

  unfoldable pub ensure_durable : String → String → String → World → Outcome Unit
  ensure_durable repo fe be w =
      persist_side (item repo "fe" fe) w >>= λ _ w. persist_side (item repo "be" be) w

  -- for _, step := range steps
  unfoldable pub run_steps : DeployRow → String → List Command → Try (Unit {0})
  run_steps row side [] = ok tt
  run_steps row side (c ∷ cs) =
      let rest = run_steps row side cs in
      if env.run_step row side c then rest else err (step_failed side)

  abbrev pub publish_side : Item → Bool → World → Outcome Unit
  publish_side i overwrite w =
      if env.publish i overwrite
      then (enqueue_persist i (record w { local = add_item i w.local }), ok tt)
      else (w, err (publish_failed i.0.1))

  -- buildFrontend, buildBackend and buildArtifact: the log, the steps, what must have come out of
  -- them, and the publication.
  unfoldable pub build_side : DeployRow → Item → List Command → Bool → Bool → World → Outcome Unit
  build_side row i steps has_output overwrite w =
      if not (env.open_log i)
      then (w, err no_log)
      else ((w, run_steps row i.0.1 steps) >>= λ _ w.
          if not has_output then (w, err no_dist) else publish_side i overwrite w)

  abbrev pub build_frontend : DeployRow → M → String → Bool → World → Outcome Unit
  build_frontend row m hash overwrite =
      build_side row (item row.repo_name "fe" hash) (env.frontend_steps m)
        (env.frontend_runs m || env.has_dist m row) overwrite

  abbrev pub build_backend : DeployRow → M → String → Bool → World → Outcome Unit
  build_backend row m hash overwrite =
      build_side row (item row.repo_name "be" hash) (env.backend_steps m) true overwrite
