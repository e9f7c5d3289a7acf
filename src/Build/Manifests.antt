-- ===== src/Build/Manifests.antt =====
-- loadManifest and resolveHashes: which manifest a commit is built by, and its content addresses.
use local_preview.Base.{
  String, not, Option, none, some, List, [], ◌∷◌, if◌then◌else◌, str_eq, Table,
}
use local_preview.Db.Deploys.{DeployRow, not_found}
use local_preview.Build.{
  Repo, World, Try, ok, err, database, BuildError, hashing_failed, invalid_manifest,
}
use local_preview.Build
use local_preview.Build.Queries.{get_repo_by_name}
use local_preview.Build.Env.{Env, Settings, Parsed, no_manifest, invalid, parsed}

-- The content addresses of a commit; a side that it does not have has the empty hash.
pub record HashSet : Type 0 where
  pub fe : String
  pub be : String
  pub artifacts : Table String String

module _ {M : Type 0} (env : Env M) where
  abbrev pub manifest_path : String → String → String
  manifest_path dir path = if str_eq dir "" then path else env.join dir path

  abbrev pub local_manifest : Settings → String → DeployRow → Try (M × String)
  local_manifest settings dir row =
      let raw = if settings.local_manifest_dir then env.read_local row.repo_name else none in
      elim raw [
        | none ↦ err Build.no_manifest
        | some text ↦ elim (env.parse text) [
          | no_manifest ↦ err (invalid_manifest row.repo_name)
          | invalid ↦ err (invalid_manifest row.repo_name)
          | parsed m ↦ ok (env.scope m dir, dir)
        ]
      ]

  abbrev pub parse_source : String → Option String → Parsed M
  parse_source table none = no_manifest
  parse_source table (some raw) = env.parse_at raw table

  -- The loop over the manifest locations: a missing file and a missing table mean the next one.
  unfoldable pub load_from :
      Settings → String → DeployRow → List (String × String) → Try (M × String)
  load_from settings dir row [] = local_manifest settings dir row
  load_from settings dir row ((path, table) ∷ refs) =
      let next = load_from settings dir row refs in
      let source = env.git.read_file row.repo_name row.sha (manifest_path dir path) in
      elim (parse_source table source) [
        | no_manifest ↦ next
        | invalid ↦ err (invalid_manifest (manifest_path dir path))
        | parsed m ↦ ok (env.scope m dir, dir)
      ]

  unfoldable pub load_manifest : Settings → DeployRow → List Repo → Try (M × String)
  load_manifest settings row repos = elim (get_repo_by_name row.repo_name repos) [
    | none ↦ err (database not_found)
    | some repo ↦ load_from settings repo.project_dir row settings.manifest_refs
  ]

  abbrev pub with_hash :
      String → Option String → Option (Table String String) → Option (Table String String)
  with_hash name (some h) (some rest) = some ((name, h) ∷ rest)
  with_hash name _ _ = none

  unfoldable pub artifact_hashes : M → DeployRow → List String → Option (Table String String)
  artifact_hashes m row [] = some []
  artifact_hashes m row (name ∷ names) =
      with_hash name (env.artifact_hash m name row) (artifact_hashes m row names)

  abbrev pub hash_set : Option String → Option String → Option (Table String String) → Try HashSet
  hash_set (some fe) (some be) (some arts) = ok (record { fe = fe; be = be; artifacts = arts })
  hash_set _ _ _ = err hashing_failed

  unfoldable pub resolve_hashes : M → DeployRow → Try HashSet
  resolve_hashes m row =
      if not (env.list_tree row)
      then err hashing_failed
      else hash_set (if env.artifacts_only m then some "" else env.frontend_hash m row)
          (if env.artifacts_only m then some "" else env.backend_hash m row)
          (artifact_hashes m row (env.artifact_names m))
