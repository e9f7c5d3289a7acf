-- ===== src/Build.antt =====
-- internal/build/build.go and artifacttier.go: the deploy queue. A worker's turn on a deploy is one
-- step of the model; git, the manifest parser, the hashes, the build steps and the object store are
-- the fields of `Env`.
pub mod Env
pub mod Manifests
pub mod Sides
pub mod Process
pub mod Turn
pub mod Unreachable
pub mod Retry
pub mod Changes
mod Grows
mod Writes
mod Downloads
mod Quiet
mod Scheduled
pub mod Queued
mod Served
mod Rows
mod Durable
mod Uploads
mod Stores
mod Retains
mod Ready
mod Marked
mod Examples
pub mod Queries
pub mod Request
use local_preview.Base.{
  ℕ, String, Bool, true, false, Option, none, some, List, [], ◌∷◌, Table, any, pair_same,
  String_comparable, pair_comparable, ◌++◌,
}
use local_preview.Db.Deploys.{Database, DbError, DeployMeta, DeployRow, Sha, Result}
use local_preview.Db.Deploys
use local_preview.Supervise.Collect.{GcAction}

pub data RepoStatus : Type 0 where
  repo_cloning repo_ready repo_failed : RepoStatus

-- internal/db/repos.go, the columns that the queue and the watcher read
pub record Repo : Type 0 where
  pub id : ℕ
  pub name : String
  pub project_dir : String
  pub status : RepoStatus
  pub error : String
  pub watch : Bool
  pub watch_branches : String
  pub watch_baselined : Bool

-- A published side of a commit: repo, side ("fe", "be" or "dl") and hash.
abbrev pub Item : Type 0
Item = (String × String) × String

abbrev pub item : String → String → String → Item
item repo side hash = ((repo, side), hash)

-- HasFrontend, HasBackend and HasArtifact, and a look at the durable tier
abbrev pub has : Item → List Item → Bool
has i = any (pair_same i)

pub data BuildError : Type 0 where
  database : DbError → BuildError
  repo_not_ready : String → BuildError
  fetch_failed bad_ref no_manifest hashing_failed no_log no_scratch archive_failed : BuildError
  unreachable_failed no_dist state_dir_failed ctx_done no_worker start_failed : BuildError
  invalid_manifest step_failed publish_failed persist_failed : String → BuildError
  side_failed : String → BuildError → BuildError
  frontend_row_failed : BuildError
  not_declared : BuildError

pub data Try {ℓ} (A : Type ℓ) : Type ℓ where
  ok : A → Try A
  err : BuildError → Try A

-- An error of the database is passed on.
abbrev pub from_db {ℓ} : {A : Type ℓ} → Result A → Try A
from_db (Deploys.ok a) = ok a
from_db (Deploys.err e) = err (database e)

-- What the queue reads and writes. `work` is the channel, oldest first, with the senders that wait for
-- one of its 256 places behind it; `uploads` the buffered jobs of the persist pool; `tier` is `none`
-- when no durable tier is configured.
pub record World : Type 0 where
  pub db : Database
  pub repos : List Repo
  pub work : List ℕ
  pub rebuild : Table ℕ Bool
  pub local : List Item
  pub tier : Option (List Item)
  pub uploads : List Item
  pub state_dirs : List (ℕ × String)
  pub frontend_rows : List (ℕ × String)
  pub warmed : List ℕ
  pub collected : List GcAction

-- A part of the pipeline leaves a world, whether or not it fails.
abbrev pub Outcome : Type 0 → Type 0
Outcome A = World × Try A

-- if err != nil { return err }
infixl 5 ◌>>=◌
abbrev pub ◌>>=◌ : {A B : Type 0} → Outcome A → (A → World → Outcome B) → Outcome B
(w, ok a) >>= f = f a w
(w, err e) >>= f = (w, err e)
