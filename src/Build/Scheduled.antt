-- ===== src/Build/Scheduled.antt =====
-- No deploy is forgotten: whatever is queued in the table is in the work channel.
use mathlib.Core.Option
use local_preview.Base.{
  ℕ, ◌+◌, ◌≡◌, refl, sym, subst, String, Bool, true, ◌||◌, Option, none, some, List, [], ◌∷◌, ◌++◌,
  arith, ◌==◌, if◌then◌else◌, if_cases, any,
}
use local_preview.Db.Deploys.{
  Database, DeployRow, DeployStatus, DeployMeta, Sha, queued, building, ready, failed, evicted,
  get_deploy_by_id, update_deploy, set_deploy_building, set_deploy_evicted, reset_deploy,
  create_deploy, Result, set_row, not_found,
}
use local_preview.Db.Deploys
use local_preview.Db.Deploys.Lifecycle.{get-set_row}
use local_preview.Db.Deploys.Create.{create_deploy-Created}
use local_preview.Build.{World, Repo, Try, ok, err, Outcome, ◌>>=◌, from_db}
use local_preview.Build.Queries.{get_deploy_by_sha}
use local_preview.Build.Request.{
  Git, request_deploy, request_again, request_new, resolve_repo_ref, is_settled, reload,
  reload_found, request_at, schedule, enqueue, set_rebuild,
}
use local_preview.Build.Changes.{queued_at, queued_row, Advances}

abbrev pub waits : ℕ → List ℕ → Bool
waits id = any (λ k. k == id)

-- Every queued deploy waits in the channel.
abbrev pub IsScheduled : World → Type 0
IsScheduled w = (id : ℕ) → queued_at id w.db.deploys ≡ true → waits id w.work ≡ true

pub Advances-IsScheduled : {w w' : World} → Advances w w' → IsScheduled w → IsScheduled w'
Advances-IsScheduled {w} {w'} a s id h =
    subst (λ (l : List ℕ). waits id l ≡ true) (sym a.same_work) (s id (a.quiet id h))

pub waits-append : (id k : ℕ) (ids : List ℕ) → waits id (ids ++ k ∷ []) ≡ (waits id ids || k == id)
waits-append id k [] = ground arith
waits-append id k (i ∷ ids) = ground (arith, waits-append id k ids)

-- RequestDeploy

reload-same : (id : ℕ) (w : World) → (reload id w).0 ≡ w
reload-same id w = go (get_deploy_by_id id w.db.deploys)
  where
    go : (o : Option DeployRow) → (reload_found o w).0 ≡ w
    go none = refl
    go (some d) = refl

-- Only the scheduled deploy may have become queued.
schedule-IsScheduled :
    (id : ℕ) (rebuild : Bool) (db : Database) (w : World)
    → ((j : ℕ) → queued_at j db.deploys ≡ true → (queued_at j w.db.deploys || id == j) ≡ true)
    → IsScheduled w
    → IsScheduled (schedule id rebuild (record w { db = db }))
unfolding enqueue set_rebuild
schedule-IsScheduled id rebuild db w only s j h =
    rw (waits-append j id w.work) (ground (arith, only j h, s j))

set_row_only :
    (f : DeployRow → DeployRow)
    → ((d : DeployRow) → (f d).id ≡ d.id)
    → (id j : ℕ) (ds : List DeployRow) → queued_at j (set_row id f ds) ≡ true
    → (queued_at j ds || id == j) ≡ true
set_row_only f same id j ds h = found (get_deploy_by_id j ds) (rw (← get-set_row f same id j ds) h)
  where
    found :
        (o : Option DeployRow)
        → queued_row (if id == j then Option.map f o else o) ≡ true
        → (queued_row o || id == j) ≡ true
    found none e = ground arith
    found (some d) e = ground arith

reset_deploy_only :
    (id : ℕ) (db db' : Database)
    → reset_deploy id db ≡ Deploys.ok db'
    → (j : ℕ) → queued_at j db'.deploys ≡ true
    → (queued_at j db.deploys || id == j) ≡ true
unfolding reset_deploy update_deploy
reset_deploy_only id db db' e j h =
    let reset : DeployRow → DeployRow =
      λ d. record d { status = queued; error = ""; attempt_count = d.attempt_count + 1 } in
    ground (arith, set_row_only reset (λ d. refl) id j db.deploys)

create_deploy_only :
    (db : Database) (repo_id : ℕ) (name : String) (sha : Sha) (meta : DeployMeta) (now : String)
    (row : DeployRow) (db' : Database)
    → create_deploy db repo_id name sha meta now ≡ Deploys.ok (row, db')
    → (j : ℕ) → queued_at j db'.deploys ≡ true
    → (queued_at j db.deploys || row.id == j) ≡ true
create_deploy_only db repo_id name sha meta now row db' e j h =
    let c = create_deploy-Created db repo_id name sha meta now row db' e in
    front (subst (λ (x : Database). queued_at j x.deploys ≡ true) c.stored h)
  where
    front : queued_at j (row ∷ db.deploys) ≡ true → (queued_at j db.deploys || row.id == j) ≡ true
    front h = unfold get_deploy_by_id in ground arith

after_reload : (id : ℕ) (w : World) → IsScheduled w → IsScheduled (reload id w).0
after_reload id w s = subst IsScheduled (sym (reload-same id w)) s

-- A write of the database that only makes `id` queued, then schedule
write_then :
    (r : Result Database) (id : ℕ) (rebuild : Bool) (w : World)
    → ((db : Database)
        → r ≡ Deploys.ok db
        → (j : ℕ) → queued_at j db.deploys ≡ true
        → (queued_at j w.db.deploys || id == j) ≡ true)
    → IsScheduled w
    → IsScheduled
        (((w, from_db r) >>= λ db w. reload id (schedule id rebuild (record w { db = db }))).0)
write_then (Deploys.err e) id rebuild w only s = s
write_then (Deploys.ok db) id rebuild w only s =
    after_reload id (schedule id rebuild (record w { db = db }))
      (schedule-IsScheduled id rebuild db w (only db refl) s)

request_again-IsScheduled :
    (d : DeployRow) (repo : Repo) (rebuild : Bool) (w : World)
    → IsScheduled w
    → IsScheduled (request_again d repo rebuild w).0
unfolding request_again
request_again-IsScheduled d repo rebuild w s =
    if_cases (λ (m : Outcome DeployRow). IsScheduled m.0) (is_settled d repo rebuild) _ _
      (λ e. after_reload d.id w s)
      (λ e.
        write_then (reset_deploy d.id w.db) d.id rebuild w
          (λ db e. reset_deploy_only d.id w.db db e) s)

request_new-IsScheduled :
    (repo : Repo) (sha : Sha) (meta : DeployMeta) (now : String) (rebuild : Bool) (w : World)
    → IsScheduled w
    → IsScheduled (request_new repo sha meta now rebuild w).0
unfolding request_new
request_new-IsScheduled repo sha meta now rebuild w s =
    go (create_deploy w.db repo.id repo.name sha meta now) refl
  where
    go :
        (r : Result (DeployRow × Database))
        → create_deploy w.db repo.id repo.name sha meta now ≡ r
        → IsScheduled (
            ((w, from_db r) >>= λ (d, db) w.
            reload d.id (schedule d.id rebuild (record w { db = db }))).0)
    go (Deploys.err e) h = s
    go (Deploys.ok (d, db)) h = after_reload d.id (schedule d.id rebuild (record w { db = db })) (
        schedule-IsScheduled d.id rebuild db w
          (create_deploy_only w.db repo.id repo.name sha meta now d db h) s)

pub request_deploy-IsScheduled :
    (git : Git) (now name ref : String) (rebuild : Bool) (by_whom : String) (w : World)
    → IsScheduled w
    → IsScheduled (request_deploy git now name ref rebuild by_whom w).0
unfolding request_deploy
request_deploy-IsScheduled git now name ref rebuild by_whom w s =
    go (resolve_repo_ref git name ref w)
  where
    at :
        (p : Repo × Sha) (o : Option DeployRow)
        → IsScheduled (request_at git now p ref rebuild by_whom o w).0
    at (repo, sha) none = request_new-IsScheduled repo sha _ now rebuild w s
    at (repo, sha) (some d) = request_again-IsScheduled d repo rebuild w s

    go :
        (r : Try (Repo × Sha))
        → IsScheduled (
            ((w, r) >>= λ p w.
            request_at git now p ref rebuild by_whom
              (get_deploy_by_sha p.0.id p.1 w.db.deploys)
              w).0)
    go (err e) = s
    go (ok p) = at p (get_deploy_by_sha p.0.id p.1 w.db.deploys)
