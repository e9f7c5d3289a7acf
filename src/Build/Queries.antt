-- ===== src/Build/Queries.antt =====
-- Queries of internal/db that the queue makes, and the shape of a ref.
use local_preview.Base.{
  ℕ, String, Bool, not, ◌&&◌, ◌||◌, Option, none, some, List, [], ◌∷◌, ltb, leb, if◌then◌else◌, any,
  str_eq, Table, keep, map, rev, length,
}
use local_preview.Db.Deploys.{DeployRow, ArtifactRef, Sha, same_sha, is_unfinished, is_ready}
use local_preview.Build.{Repo}
use Prim.Native.Char.{code}

-- GetDeployBySHA
unfoldable pub get_deploy_by_sha : ℕ → Sha → List DeployRow → Option DeployRow
get_deploy_by_sha repo_id sha [] = none
get_deploy_by_sha repo_id sha (d ∷ ds) =
    if same_sha repo_id sha d then some d else get_deploy_by_sha repo_id sha ds

-- GetRepoByName
unfoldable pub get_repo_by_name : String → List Repo → Option Repo
get_repo_by_name name [] = none
get_repo_by_name name (r ∷ rs) = if str_eq r.name name then some r else get_repo_by_name name rs

-- anyArtifactBuilding, on the decoded column
abbrev pub any_artifact_building : Table String ArtifactRef → Bool
any_artifact_building = any (λ (e : String × ArtifactRef). str_eq e.1.status "building")

abbrev pub is_interrupted : DeployRow → Bool
is_interrupted d =
    is_unfinished d.status || (is_ready d.status && any_artifact_building d.artifacts)

-- ListUnfinishedDeployIDs; the table is kept by descending id, and the query orders by id.
unfoldable pub list_unfinished_deploy_ids : List DeployRow → List ℕ
list_unfinished_deploy_ids rows = rev (map (λ d. d.id) (keep is_interrupted rows))

-- Character codes; refs and shas are ASCII.
abbrev pub codes : String → List ℕ
codes String.[] = []
codes (String.◌∷◌ c s) = code c ∷ codes s

abbrev pub is_hex_code : ℕ → Bool
is_hex_code c = (leb 48 c && leb c 57) || (leb 97 c && leb c 102)

-- looksLikeSHA
unfoldable pub looks_like_sha : String → Bool
looks_like_sha ref =
    let cs = codes ref in
    not (ltb (length cs) 7) && not (ltb 64 (length cs)) && not (any (λ c. not (is_hex_code c)) cs)
