-- ===== src/Build/Queued.antt =====
-- The steps of the queue, one after the other, and what holds of the channel after any of them.
use local_preview.Base.{
  ℕ, ◌≡◌, refl, sym, ◌∙◌, subst, String, Bool, true, false, ◌||◌, Option, none, some, List, [], ◌∷◌,
  ◌++◌, arith, ◌==◌, any, Bool-cases, inl, inr, map, keep, rev, ==_iff,
}
use local_preview.Db.Deploys.{
  Database, DeployRow, DeployStatus, Sha, queued, building, ready, failed, evicted,
  get_deploy_by_id, update_deploy, set_deploy_building, set_deploy_evicted, Result, set_row,
}
use local_preview.Db.Deploys
use local_preview.Db.Deploys.Lifecycle.{get-set_row}
use local_preview.Build.{World, Repo}
use local_preview.Build.Env.{Env, Settings}
use local_preview.Build.Queries.{list_unfinished_deploy_ids, is_interrupted}
use local_preview.Build.Request.{Git, request_deploy}
use local_preview.Build.Unreachable.{
  evict_unreachable, evict_stale, evict_among, collect_evicted, row_of_sha, candidates, evict_rows,
  evict_row,
}
use local_preview.Build.Turn.{
  process, process_found, process_row, build_row, work_once, run_next, resume,
}
use local_preview.Build.Changes.{
  is_queued, queued_at, Quiet, Advances, Advances-refl, Advances-trans,
}
use local_preview.Build.Writes.{
  QuietWrite, set_deploy_building-QuietWrite, set_deploy_evicted-QuietWrite,
}
use local_preview.Build.Quiet.{build_artifacts-Advances, build_row-Advances}
use local_preview.Build.Scheduled.{
  waits, IsScheduled, Advances-IsScheduled, request_deploy-IsScheduled,
}

-- The channel without its head serves every deploy but the head's.
popped-IsScheduled :
    (id : ℕ) (ids : List ℕ) (w w' : World)
    → w.work ≡ id ∷ ids
    → w'.work ≡ ids
    → Quiet w.db w'.db
    → queued_at id w'.db.deploys ≡ false
    → IsScheduled w
    → IsScheduled w'
popped-IsScheduled id ids w w' e e' q done s j h =
    subst (λ (l : List ℕ). waits j l ≡ true) (sym e')
      (rest (subst (λ (l : List ℕ). waits j l ≡ true) e (s j (q j h))))
  where
    clash : queued_at j w'.db.deploys ≡ false → ⊥
    clash f = ground arith

    rest : waits j (id ∷ ids) ≡ true → waits j ids ≡ true
    rest l = elim (Bool-cases (id == j)) [
      | inr n ↦ ground arith
      | inl y ↦
          absurd
            (clash (subst (λ (i : ℕ). queued_at i w'.db.deploys ≡ false) ((==_iff id j).0 y) done))
    ]

now_building :
    (id : ℕ) (d : DeployRow) (db db' : Database)
    → get_deploy_by_id id db.deploys ≡ some d
    → set_deploy_building id db ≡ Deploys.ok db'
    → queued_at id db'.deploys ≡ false
unfolding set_deploy_building update_deploy is_queued
now_building id d db db' f e =
    let build : DeployRow → DeployRow = λ d. record d { status = building } in
    ground (arith, get-set_row build (λ d. refl) id id db.deploys)

building_succeeds :
    (id : ℕ) (d : DeployRow) (db : Database)
    → get_deploy_by_id id db.deploys ≡ some d
    → (db' : Database) × (set_deploy_building id db ≡ Deploys.ok db')
unfolding set_deploy_building update_deploy
building_succeeds id d db f = (
  record db { deploys = set_row id (λ d. record d { status = building }) db.deploys },
  rw (f, set_deploy_building, update_deploy) refl,
)

module _ {M : Type 0} (env : Env M) where
  build_row-IsScheduled :
      (settings : Settings) (id : ℕ) (ids : List ℕ) (d : DeployRow) (w : World)
      → w.work ≡ id ∷ ids
      → get_deploy_by_id id w.db.deploys ≡ some d
      → IsScheduled w
      → IsScheduled
          (build_row env settings id d (set_deploy_building id w.db) (record w { work = ids }))
  build_row-IsScheduled settings id ids d w e f s =
      let (db, b) = building_succeeds id d w.db f in
      subst
        (λ (r : Result Database).
          IsScheduled (build_row env settings id d r (record w { work = ids })))
        (sym b)
        (Advances-IsScheduled (build_row-Advances env settings id d db (record w { work = ids })) (
          popped-IsScheduled id ids w (record w { work = ids; db = db }) e refl
            (subst (QuietWrite w.db) b (set_deploy_building-QuietWrite id w.db))
            (now_building id d w.db db f b) s))

  process_row-IsScheduled :
      (settings : Settings) (id : ℕ) (ids : List ℕ) (d : DeployRow) (w : World)
      → w.work ≡ id ∷ ids
      → get_deploy_by_id id w.db.deploys ≡ some d
      → IsScheduled w
      → (st : DeployStatus) → d.status ≡ st
      → IsScheduled (process_row env settings id d st (record w { work = ids }))
  process_row-IsScheduled settings id ids d w e f s evicted st =
      popped-IsScheduled id ids w (record w { work = ids }) e refl (λ j h. h)
        (unfold is_queued in rw (f, st) refl) s
  process_row-IsScheduled settings id ids d w e f s ready st =
      Advances-IsScheduled (build_artifacts-Advances env settings d false (record w { work = ids }))
        (popped-IsScheduled id ids w (record w { work = ids }) e refl (λ j h. h)
          (unfold is_queued in rw (f, st) refl) s)
  process_row-IsScheduled settings id ids d w e f s queued st =
      build_row-IsScheduled settings id ids d w e f s
  process_row-IsScheduled settings id ids d w e f s building st =
      build_row-IsScheduled settings id ids d w e f s
  process_row-IsScheduled settings id ids d w e f s failed st =
      build_row-IsScheduled settings id ids d w e f s

  work_once-IsScheduled :
      (settings : Settings) (w : World) → IsScheduled w → IsScheduled (work_once env settings w)
  unfolding work_once process
  work_once-IsScheduled settings w s = next w.work refl
    where
      found :
          (id : ℕ) (ids : List ℕ)
          → w.work ≡ id ∷ ids
          → (o : Option DeployRow) → get_deploy_by_id id w.db.deploys ≡ o
          → IsScheduled (process_found env settings id o (record w { work = ids }))
      found id ids e none f =
          popped-IsScheduled id ids w (record w { work = ids }) e refl (λ j h. h) (rw f refl) s
      found id ids e (some d) f = process_row-IsScheduled settings id ids d w e f s d.status refl

      next : (l : List ℕ) → w.work ≡ l → IsScheduled (run_next env settings l w)
      next [] e = s
      next (id ∷ ids) e = found id ids e (get_deploy_by_id id w.db.deploys) refl

collect_evicted-Advances :
    (row : DeployRow) (r : Result Database) (w : World) (n : ℕ)
    → QuietWrite w.db r
    → Advances w (collect_evicted row r (w, n)).0
collect_evicted-Advances row (Deploys.err e) w n q = Advances-refl w
collect_evicted-Advances row (Deploys.ok db) w n q = record { quiet = q; same_work = refl }

evict_row-Advances : (o : Option DeployRow) (r : World × ℕ) → Advances r.0 (evict_row o r).0
evict_row-Advances none r = Advances-refl r.0
evict_row-Advances (some d) r =
    collect_evicted-Advances d (set_deploy_evicted d.id r.0.db) r.0 r.1
      (set_deploy_evicted-QuietWrite d.id r.0.db)

evict_stale-Advances :
    (rows : List DeployRow) (shas : List Sha) (r : World × ℕ)
    → Advances r.0 (evict_stale rows shas r).0
unfolding evict_stale
evict_stale-Advances rows [] r = Advances-refl r.0
evict_stale-Advances rows (sha ∷ shas) r =
    Advances-trans (evict_row-Advances (row_of_sha sha rows) r)
      (evict_stale-Advances rows shas (evict_row (row_of_sha sha rows) r))

pub evict_unreachable-Advances :
    (git : Git) (repo : Repo) (tips : List Sha) (w : World)
    → Advances w (evict_unreachable git repo tips w).0
unfolding evict_unreachable
evict_unreachable-Advances git repo tips w = go (candidates repo.name w.db.deploys)
  where
    among : (rows : List DeployRow) (o : Option (List Sha)) → Advances w (evict_among rows o w).0
    among rows none = Advances-refl w
    among rows (some stale) = evict_stale-Advances rows stale (w, 0)

    go : (rows : List DeployRow) → Advances w (evict_rows git repo tips rows w).0
    go [] = Advances-refl w
    go (d ∷ ds) = among (d ∷ ds) (git.unreachable_shas repo.name (map (λ r. r.sha) (d ∷ ds)) tips)

any-append : (p : ℕ → Bool) (xs ys : List ℕ) → any p (xs ++ ys) ≡ (any p xs || any p ys)
any-append p [] ys = refl
any-append p (x ∷ xs) ys = ground (arith, any-append p xs ys)

any-rev : (p : ℕ → Bool) (xs : List ℕ) → any p (rev xs) ≡ any p xs
any-rev p [] = refl
any-rev p (x ∷ xs) = ground (arith, any-append p (rev xs) (x ∷ []), any-rev p xs)

unfinished_waits :
    (id : ℕ) (ds : List DeployRow)
    → queued_at id ds ≡ true
    → waits id (map (λ d. d.id) (keep is_interrupted ds)) ≡ true
unfolding get_deploy_by_id is_queued
unfinished_waits id [] h = ground arith
unfinished_waits id (d ∷ ds) h = ground (arith, unfinished_waits id ds)

resume-IsScheduled : (w : World) → IsScheduled (resume w)
unfolding resume list_unfinished_deploy_ids
resume-IsScheduled w id h =
    any-rev (λ k. k == id) (map (λ d. d.id) (keep is_interrupted w.db.deploys))
    ∙ unfinished_waits id w.db.deploys h

-- One step of the queue: a request, a worker's turn, an eviction of unreachable commits, or a restart.
pub data QueueStep {M : Type 0} (env : Env M) (w : World) : World → Type 0 where
  request :
      (now name ref : String) (rebuild : Bool) (created_by : String)
      → QueueStep env w (request_deploy env.git now name ref rebuild created_by w).0
  turn : (settings : Settings) → QueueStep env w (work_once env settings w)
  evict :
      (repo : Repo) (tips : List Sha) → QueueStep env w (evict_unreachable env.git repo tips w).0
  restart : QueueStep env w (resume w)

pub data QueueRun {M : Type 0} (env : Env M) (w : World) : World → Type 0 where
  here : QueueRun env w w
  next : {v u : World} → QueueRun env w v → QueueStep env v u → QueueRun env w u

QueueStep-IsScheduled :
    {M : Type 0} (env : Env M) {w w' : World} → QueueStep env w w' → IsScheduled w → IsScheduled w'
QueueStep-IsScheduled env {w} (request now name ref rebuild by_whom) s =
    request_deploy-IsScheduled env.git now name ref rebuild by_whom w s
QueueStep-IsScheduled env {w} (turn settings) s = work_once-IsScheduled env settings w s
QueueStep-IsScheduled env {w} (evict repo tips) s =
    Advances-IsScheduled (evict_unreachable-Advances env.git repo tips w) s
QueueStep-IsScheduled env {w} restart s = resume-IsScheduled w

-- Start from a world in which every queued deploy is in the work channel. After any sequence of
-- requests, workers' turns, evictions and restarts, whatever git, the builds and the store return, every
-- queued deploy is in the work channel: no deploy is forgotten.
pub QueueRun-IsScheduled :
    {M : Type 0} (env : Env M) {w w' : World} → IsScheduled w → QueueRun env w w' → IsScheduled w'
QueueRun-IsScheduled env s here = s
QueueRun-IsScheduled env s (next r t) = QueueStep-IsScheduled env t (QueueRun-IsScheduled env s r)
