-- ===== src/Db/Deploys.antt =====
-- internal/db/deploys.go and the deploys and branch_aliases tables of internal/db/schema.sql.
-- Deploy ids are AUTOINCREMENT, so a table that is kept newest first is sorted by descending id,
-- which is the order of ListDeploys. The log paths and the updated_at column are left out: no
-- modelled operation reads them. A sha is the list of its characters.
pub mod Create
pub mod Valid
pub mod Lifecycle
mod Examples
use local_preview.Base.{
  not, ℕ, zero, suc, ◌+◌, ◌-◌, String, Bool, true, false, ◌&&◌, ◌||◌, Option, none, some, List, [],
  ◌∷◌, ◌==◌, if◌then◌else◌, length, any, keep, str_eq, list_same, Table, find, put, ℕ_comparable,
  String_comparable, pair_comparable, map,
}

pub data DeployStatus : Type 0 where
  queued building ready failed evicted : DeployStatus

abbrev pub is_ready : DeployStatus → Bool
is_ready ready = true
is_ready _ = false

abbrev pub is_evicted : DeployStatus → Bool
is_evicted evicted = true
is_evicted _ = false

-- status == DeployQueued || status == DeployBuilding
abbrev pub is_unfinished : DeployStatus → Bool
is_unfinished queued = true
is_unfinished building = true
is_unfinished _ = false

pub record ArtifactRef : Type 0 where
  pub hash : String
  pub log_path : String
  pub status : String
  pub error : String

pub record DeployMeta : Type 0 where
  pub ref : String
  pub branch : String
  pub author_name : String
  pub author_email : String
  pub created_by : String

abbrev pub Sha : Type 0
Sha = List ℕ

-- Deploy and DeployRow: a row of the table joined with its repo's name.
pub record DeployRow : Type 0 where
  pub id : ℕ
  pub repo_id : ℕ
  pub repo_name : String
  pub sha : Sha
  pub short_sha : Sha
  pub meta : DeployMeta
  pub fe_hash : String
  pub be_hash : String
  pub project_dir : String
  pub artifacts : Table String ArtifactRef
  pub status : DeployStatus
  pub error : String
  pub attempt_count : ℕ
  pub created_at : String

pub record Database : Type 0 where
  pub deploys : List DeployRow
  pub next_id : ℕ
  pub aliases : Table (ℕ × String) ℕ
  -- the short shas with which an INSERT fails other than by a UNIQUE constraint
  pub insert_fails : Sha → Bool

pub data DbError : Type 0 where
  not_found conflict unique_violation no_short_sha insert_failed : DbError

pub data Result {ℓ} (A : Type ℓ) : Type ℓ where
  ok : A → Result A
  err : DbError → Result A

-- sha[:n], for n up to the length
abbrev pub prefix : ℕ → Sha → Sha
prefix zero s = []
prefix (suc n) [] = []
prefix (suc n) (c ∷ s) = c ∷ prefix n s

abbrev pub same_sha : ℕ → Sha → DeployRow → Bool
same_sha repo_id sha d = d.repo_id == repo_id && list_same d.sha sha

abbrev pub same_short : ℕ → Sha → DeployRow → Bool
same_short repo_id short_sha d = d.repo_id == repo_id && list_same d.short_sha short_sha

-- UNIQUE (repo_id, sha), UNIQUE (repo_id, short_sha)
abbrev pub violates_unique : ℕ → Sha → Sha → List DeployRow → Bool
violates_unique repo_id sha short_sha rows =
    any (λ d. same_sha repo_id sha d || same_short repo_id short_sha d) rows

unfoldable pub new_row : ℕ → ℕ → String → Sha → Sha → DeployMeta → String → DeployRow
new_row id repo_id repo_name sha short_sha meta now = record {
  id = id;
  repo_id = repo_id;
  repo_name = repo_name;
  sha = sha;
  short_sha = short_sha;
  meta = meta;
  fe_hash = "";
  be_hash = "";
  project_dir = "";
  artifacts = [];
  status = queued;
  error = "";
  attempt_count = 0;
  created_at = now;
}

-- insertDeploy
unfoldable pub insert_deploy :
    Database → ℕ → String → Sha → Sha → DeployMeta → String → Result (DeployRow × Database)
unfolding new_row
insert_deploy db repo_id repo_name sha short_sha meta now =
    if db.insert_fails short_sha
    then err insert_failed
    else if violates_unique repo_id sha short_sha db.deploys
    then err unique_violation
    else ok (
      new_row db.next_id repo_id repo_name sha short_sha meta now,
      record db {
        deploys = new_row db.next_id repo_id repo_name sha short_sha meta now ∷ db.deploys;
        next_id = db.next_id + 1;
      },
    )

-- GetDeployBySHA, as far as CreateDeploy reads it: is there a row for (repo, sha)?
abbrev pub has_sha : ℕ → Sha → List DeployRow → Bool
has_sha repo_id sha rows = any (same_sha repo_id sha) rows

-- isUniqueErr
abbrev pub is_unique_err : DbError → Bool
is_unique_err unique_violation = true
is_unique_err _ = false

-- The loop of CreateDeploy; the first argument counts the rounds that are left.
unfoldable pub create_from :
    ℕ → ℕ → Database → ℕ → String → Sha → DeployMeta → String → Result (DeployRow × Database)
unfolding insert_deploy
create_from zero n db repo_id repo_name sha meta now = err no_short_sha
create_from (suc rounds) n db repo_id repo_name sha meta now =
    let retry = create_from rounds (n + 1) db repo_id repo_name sha meta now in
    elim (insert_deploy db repo_id repo_name sha (prefix n sha) meta now) [
      | ok made ↦ ok made
      | err e ↦
          if not (is_unique_err e)
          then err e
          else if has_sha repo_id sha db.deploys
          then err conflict
          else retry
    ]

-- for n := 7; n <= len(sha); n++
unfoldable pub create_deploy :
    Database → ℕ → String → Sha → DeployMeta → String → Result (DeployRow × Database)
unfolding create_from
create_deploy db repo_id repo_name sha meta now =
    create_from (length sha + 1 - 7) 7 db repo_id repo_name sha meta now

-- GetDeployByID
unfoldable pub get_deploy_by_id : ℕ → List DeployRow → Option DeployRow
get_deploy_by_id id [] = none
get_deploy_by_id id (d ∷ ds) = if d.id == id then some d else get_deploy_by_id id ds

-- ListDeploys(DeployFilter{Repo: repo}), and with no filter the table itself
abbrev pub list_deploys_of : String → List DeployRow → List DeployRow
list_deploys_of repo = keep (λ d. str_eq d.repo_name repo)

unfoldable pub set_row : ℕ → (DeployRow → DeployRow) → List DeployRow → List DeployRow
set_row id f [] = []
set_row id f (d ∷ ds) = (if d.id == id then f d else d) ∷ set_row id f ds

-- updateDeploy: no row affected is ErrNotFound.
unfoldable pub update_deploy : ℕ → (DeployRow → DeployRow) → Database → Result Database
update_deploy id f db = elim (get_deploy_by_id id db.deploys) [
  | none ↦ err not_found
  | some d ↦ ok (record db { deploys = set_row id f db.deploys })
]

unfoldable pub reset_deploy : ℕ → Database → Result Database
reset_deploy id =
    update_deploy id
      (λ d. record d { status = queued; error = ""; attempt_count = d.attempt_count + 1 })

unfoldable pub set_deploy_building : ℕ → Database → Result Database
set_deploy_building id = update_deploy id (λ d. record d { status = building })

unfoldable pub set_deploy_hashes : ℕ → String → String → String → Database → Result Database
set_deploy_hashes id fe_hash be_hash project_dir =
    update_deploy id
      (λ d. record d { fe_hash = fe_hash; be_hash = be_hash; project_dir = project_dir })

unfoldable pub set_deploy_artifacts : ℕ → Table String ArtifactRef → Database → Result Database
set_deploy_artifacts id refs = update_deploy id (λ d. record d { artifacts = refs })

-- The stored artifacts with one ref's outcome replaced; `none` when the deploy has no such ref.
abbrev pub with_status :
    String → String → String → Table String ArtifactRef → Option (Table String ArtifactRef)
with_status name status error refs = elim (find name refs) [
  | none ↦ none
  | some ref ↦ some (put name (record ref { status = status; error = error }) refs)
]

-- SetDeployArtifactStatus
unfoldable pub set_deploy_artifact_status :
    ℕ → String → String → String → Database → Result Database
set_deploy_artifact_status id name status error db = elim (get_deploy_by_id id db.deploys) [
  | none ↦ err not_found
  | some d ↦ elim (with_status name status error d.artifacts) [
    | none ↦ err not_found
    | some refs ↦ set_deploy_artifacts id refs db
  ]
]

unfoldable pub set_deploy_ready : ℕ → Database → Result Database
set_deploy_ready id = update_deploy id (λ d. record d { status = ready; error = "" })

unfoldable pub set_deploy_failed : ℕ → String → Database → Result Database
set_deploy_failed id msg = update_deploy id (λ d. record d { status = failed; error = msg })

unfoldable pub set_deploy_evicted : ℕ → Database → Result Database
set_deploy_evicted id = update_deploy id (λ d. record d { status = evicted })

-- DELETE FROM deploys WHERE id = ?
abbrev pub without_id : ℕ → List DeployRow → List DeployRow
without_id id = keep (λ d. if d.id == id then false else true)

-- DELETE FROM branch_aliases WHERE deploy_id = ?
abbrev pub without_alias : ℕ → Table (ℕ × String) ℕ → Table (ℕ × String) ℕ
without_alias id [] = []
without_alias id ((k, d) ∷ m) = if d == id then without_alias id m else (k, d) ∷ without_alias id m

-- DeleteDeploy: both deletes in one transaction.
unfoldable pub delete_deploy : ℕ → Database → Database
delete_deploy id db = record db {
  aliases = without_alias id db.aliases;
  deploys = without_id id db.deploys;
}

-- SetBranchAlias (internal/db/settings.go)
unfoldable pub set_branch_alias : ℕ → String → ℕ → Database → Database
set_branch_alias repo_id branch deploy_id db = record db {
  aliases = put (repo_id, branch) deploy_id db.aliases;
}

-- BranchAliasDeployIDs, asked of one id
abbrev pub is_aliased : ℕ → Table (ℕ × String) ℕ → Bool
is_aliased id [] = false
is_aliased id ((k, d) ∷ m) = d == id || is_aliased id m
