-- ===== src/Db/Listing.antt =====
-- The listing of deploys in internal/db/deploys.go: deployWhere, ListDeploys and CountDeploys over
-- the table that is kept newest first. How SQLite compares text (instr, lower) is an argument.
pub mod Pages
mod Examples
use local_preview.Base.{
  ℕ, String, Bool, true, false, ◌&&◌, ◌||◌, not, List, [], ◌∷◌, ◌==◌, leb, if◌then◌else◌, length,
  any, keep, take, drop, str_eq, ℤ, pos, pos_part, ltb_ℤ,
}
use local_preview.Db.Deploys.{Sha, DeployRow, Database, DeployStatus}

-- instr(lower(text), lower(part)) > 0, instr(sha, lower(part)) = 1, and a status column's text
pub record SqlText : Type 0 where
  pub contains : String → String → Bool
  pub sha_starts : Sha → String → Bool
  pub status_text : DeployStatus → String

pub data CrashedMode : Type 0 where
  crashed_any crashed_only crashed_none : CrashedMode

pub record ProcKey : Type 0 where
  pub repo_id : ℕ
  pub fe_hash : String
  pub be_hash : String

pub record DeployFilter : Type 0 where
  pub repo : String
  pub branch : String
  pub author : String
  pub status : String
  pub crashed : CrashedMode
  pub crashed_procs : List ProcKey
  pub query : String
  pub limit : ℤ
  pub offset : ℤ
  pub max_id : ℤ

-- One disjunct of the crashed clause
abbrev pub names_proc : DeployRow → ProcKey → Bool
names_proc d k =
    if str_eq k.fe_hash ""
    then d.repo_id == k.repo_id && str_eq d.be_hash k.be_hash
    else d.repo_id == k.repo_id && str_eq d.fe_hash k.fe_hash && str_eq d.be_hash k.be_hash

-- The switch on f.Crashed; over no processes a disjunction is not rendered at all.
unfoldable pub matches_crashed : CrashedMode → List ProcKey → DeployRow → Bool
matches_crashed crashed_any procs d = true
matches_crashed crashed_only [] d = false
matches_crashed crashed_only (k ∷ ks) d = any (names_proc d) (k ∷ ks)
matches_crashed crashed_none [] d = true
matches_crashed crashed_none (k ∷ ks) d = not (any (names_proc d) (k ∷ ks))

-- A clause that an empty text leaves out
abbrev pub unless_empty : String → Bool → Bool
unless_empty text test = if str_eq text "" then true else test

abbrev pub matches_query : SqlText → String → DeployRow → Bool
matches_query sql query d =
    sql.sha_starts d.sha query
    || sql.contains d.meta.branch query
    || sql.contains d.meta.ref query
    || sql.contains d.repo_name query
    || sql.contains d.meta.author_name query
    || sql.contains d.meta.author_email query

-- f.MaxID > 0 and d.id <= f.MaxID
abbrev pub matches_max_id : ℤ → DeployRow → Bool
matches_max_id max_id d = if ltb_ℤ (pos 0) max_id then leb d.id (pos_part max_id) else true

-- The clauses of deployWhere other than the one on f.Crashed
unfoldable pub matches_columns : SqlText → DeployFilter → DeployRow → Bool
matches_columns sql f d =
    unless_empty f.repo (str_eq d.repo_name f.repo)
    && unless_empty f.branch (str_eq d.meta.branch f.branch)
    && unless_empty f.author
        (sql.contains d.meta.author_name f.author || sql.contains d.meta.author_email f.author)
    && matches_max_id f.max_id d
    && unless_empty f.status (str_eq (sql.status_text d.status) f.status)
    && unless_empty f.query (matches_query sql f.query d)

-- deployWhere
abbrev pub matches : SqlText → DeployFilter → DeployRow → Bool
matches sql f d = matches_columns sql f d && matches_crashed f.crashed f.crashed_procs d

-- CountDeploys
abbrev pub count_deploys : SqlText → DeployFilter → Database → ℕ
count_deploys sql f db = length (keep (matches sql f) db.deploys)

-- LIMIT and OFFSET, each only for a positive value
unfoldable pub page : ℤ → ℤ → List DeployRow → List DeployRow
page limit offset rows =
    let rest = if ltb_ℤ (pos 0) offset then drop (pos_part offset) rows else rows in
    if ltb_ℤ (pos 0) limit then take (pos_part limit) rest else rest

-- ListDeploys
abbrev pub list_deploys : SqlText → DeployFilter → Database → List DeployRow
list_deploys sql f db = page f.limit f.offset (keep (matches sql f) db.deploys)
