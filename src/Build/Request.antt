-- ===== src/Build/Request.antt =====
-- RequestDeploy: a trigger's ref becomes a row of the deploys table and an entry of the work queue.
use local_preview.Base.{
  ℕ, String, Bool, true, false, not, ◌&&◌, Option, none, some, List, [], ◌∷◌, ◌++◌, if◌then◌else◌,
  str_eq, put, delete, find, ℕ_comparable,
}
use local_preview.Db.Deploys.{
  Database, DeployRow, DeployMeta, Sha, queued, building, ready, failed, evicted, reset_deploy,
  create_deploy, get_deploy_by_id, not_found,
}
use local_preview.Build.{
  Repo, repo_ready, repo_cloning, repo_failed, World, Try, ok, err, Outcome, ◌>>=◌, from_db,
  database, repo_not_ready, fetch_failed, bad_ref,
}
use local_preview.Build.Queries.{get_deploy_by_sha, get_repo_by_name, looks_like_sha}

-- internal/gitrepo, as the queue calls it: every argument starts with the repo's name. `none` and
-- `false` are errors.
pub record Git : Type 0 where
  pub fetch : String → Bool
  pub resolve_ref : String → String → Option Sha
  pub is_branch : String → String → Bool
  pub branches_pointing_at : String → Sha → Option (List String)
  pub commit_info : String → Sha → Option (String × String)
  pub unreachable_shas : String → List Sha → List Sha → Option (List Sha)
  pub read_file : String → Sha → String → Option String
  pub archive : String → Sha → Bool

unfoldable pub set_rebuild : ℕ → Bool → World → World
set_rebuild id v w = record w { rebuild = if v then put id true w.rebuild else delete id w.rebuild }

abbrev pub is_set : Option Bool → Bool
is_set none = false
is_set (some v) = v

unfoldable pub take_rebuild : ℕ → World → World × Bool
take_rebuild id w = (record w { rebuild = delete id w.rebuild }, is_set (find id w.rebuild))

unfoldable pub enqueue : ℕ → World → World
enqueue id w = record w { work = w.work ++ id ∷ [] }

abbrev pub db_action : (Database → Database) → World → World
db_action f w = record w { db = f w.db }

-- resolveRepoRef
unfoldable pub resolve_repo_ref : Git → String → String → World → Try (Repo × Sha)
resolve_repo_ref git repo_name ref w = elim (get_repo_by_name repo_name w.repos) [
  | none ↦ err (database not_found)
  | some repo ↦ elim repo.status [
    | repo_cloning ↦ err (repo_not_ready "")
    | repo_failed ↦ err (repo_not_ready repo.error)
    | repo_ready ↦
        if not (looks_like_sha ref) && not (git.fetch repo.name)
        then err fetch_failed
        else elim (git.resolve_ref repo.name ref) [ none ↦ err bad_ref | some sha ↦ ok (repo, sha) ]
  ]
]

abbrev pub first_branch : Option (List String) → String
first_branch (some (b ∷ bs)) = b
first_branch _ = ""

abbrev pub author_of : Option (String × String) → String × String
author_of none = ("", "")
author_of (some a) = a

-- commitMeta, with the identity that RequestDeploy adds
unfoldable pub commit_meta : Git → String → String → Sha → String → DeployMeta
commit_meta git repo ref sha created_by =
    let kept = if looks_like_sha ref then "" else ref in
    let author = author_of (git.commit_info repo sha) in
    record {
      ref = kept;
      branch =
          if not (str_eq kept "") && git.is_branch repo kept
          then kept
          else first_branch (git.branches_pointing_at repo sha);
      author_name = author.0;
      author_email = author.1;
      created_by = created_by;
    }

-- Already in flight, or ready as it is wanted.
abbrev pub is_settled : DeployRow → Repo → Bool → Bool
is_settled d repo rebuild = elim d.status [
  | queued ↦ true
  | building ↦ true
  | ready ↦ not rebuild && str_eq d.project_dir repo.project_dir
  | failed ↦ false
  | evicted ↦ false
]

-- setRebuild and enqueue, on the id of a row that was written
abbrev pub schedule : ℕ → Bool → World → World
schedule id rebuild w = enqueue id (set_rebuild id rebuild w)

abbrev pub reload_found : Option DeployRow → World → Outcome DeployRow
reload_found none w = (w, err (database not_found))
reload_found (some d) w = (w, ok d)

abbrev pub reload : ℕ → World → Outcome DeployRow
reload id w = reload_found (get_deploy_by_id id w.db.deploys) w

-- The case of a deploy that exists
unfoldable pub request_again : DeployRow → Repo → Bool → World → Outcome DeployRow
request_again d repo rebuild w =
    if is_settled d repo rebuild
    then reload d.id w
    else ((w, from_db (reset_deploy d.id w.db)) >>= λ db w.
        reload d.id (schedule d.id rebuild (record w { db = db })))

-- The case of a deploy that does not
unfoldable pub request_new : Repo → Sha → DeployMeta → String → Bool → World → Outcome DeployRow
request_new repo sha meta now rebuild w =
    (w, from_db (create_deploy w.db repo.id repo.name sha meta now)) >>= λ (d, db) w.
    reload d.id (schedule d.id rebuild (record w { db = db }))

abbrev pub request_at :
    Git
    → String
    → Repo × Sha
    → String
    → Bool
    → String
    → Option DeployRow
    → World
    → Outcome DeployRow
request_at git now (repo, sha) ref rebuild created_by (some d) w = request_again d repo rebuild w
request_at git now (repo, sha) ref rebuild created_by none w =
    request_new repo sha (commit_meta git repo.name ref sha created_by) now rebuild w

-- RequestDeploy; `now` is the time of a row that is created.
unfoldable pub request_deploy :
    Git → String → String → String → Bool → String → World → Outcome DeployRow
request_deploy git now repo_name ref rebuild created_by w =
    (w, resolve_repo_ref git repo_name ref w) >>= λ at w.
    request_at git now at ref rebuild created_by (get_deploy_by_sha at.0.id at.1 w.db.deploys) w
