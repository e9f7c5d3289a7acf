-- ===== src/Build/Env.antt =====
-- What the deploy queue calls outside this model, and its settings.
use local_preview.Base.{ℕ, String, Bool, Option, List}
use local_preview.Db.Deploys.{DeployRow}
use local_preview.Build.{Repo, Item, BuildError}
use local_preview.Build.Request.{Git}

abbrev pub Command : Type 0
Command = List String

-- What manifest.ParseAt returns: ErrNoManifest, another error, or a manifest.
pub data Parsed (M : Type 0) : Type 0 where
  no_manifest invalid : Parsed M
  parsed : M → Parsed M

-- What ArtifactTier.Save returns: nil, ErrSourceGone, or another error.
pub data Saved : Type 0 where
  saved source_gone save_failed : Saved

-- `M` is the type of manifests. A Bool that is false and an Option that is none are errors.
pub record Env (M : Type 0) : Type 0 where
  pub git : Git
  pub parse_at : String → String → Parsed M
  pub parse : String → Parsed M
  pub read_local : String → Option String
  pub join : String → String → String
  pub scope : M → String → M
  pub list_tree : DeployRow → Bool
  pub artifacts_only : M → Bool
  pub frontend_hash : M → DeployRow → Option String
  pub backend_hash : M → DeployRow → Option String
  -- the names in sorted order
  pub artifact_names : M → List String
  pub artifact_hash : M → String → DeployRow → Option String
  pub frontend_steps : M → List Command
  pub frontend_runs : M → Bool
  pub has_dist : M → DeployRow → Bool
  pub backend_steps : M → List Command
  -- none when the manifest does not declare the artifact
  pub artifact_steps : M → String → Option (List Command)
  pub log_path : Item → String
  pub open_log : Item → Bool
  pub run_step : DeployRow → String → Command → Bool
  pub new_scratch : String → Bool
  pub publish : Item → Bool → Bool
  pub fetch_side : Item → Bool
  pub save : Item → Saved
  pub create_frontend_artifact : ℕ → String → Bool
  pub init_state_dir : Repo → String → Bool
  pub message : BuildError → String
  pub cancelled : Bool

pub record Settings : Type 0 where
  pub manifest_refs : List (String × String)
  pub local_manifest_dir : Bool
  pub auto_start : Bool
