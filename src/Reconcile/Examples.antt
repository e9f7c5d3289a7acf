-- ===== src/Reconcile/Examples.antt =====
-- A pass over one missing, one truncated and one unrecoverable object.
use local_preview.Base.{
  ◌≡◌, ◌⊎◌, refl, String, true, false, none, some, List, [], ◌∷◌, arith, All, find, if◌then◌else◌,
  str_eq, String_comparable, pair_comparable,
}
use local_preview.Db.Deploys.{DeployRow, is_ready, ready}
use local_preview.Store.Cache.{ArtifactId}
use local_preview.Reconcile.{ObjectInfo, Bucket, World, new_report, reconcile_refs, collect_from}
use local_preview.Reconcile.Heals.{IsHealthy, IsReady, reconcile_spares, reconcile_heals}
use local_preview.Reconcile.Live.{CoversRow, collect_from-CoversRow}

abbrev backend : String → ArtifactId
backend hash = ("app", ("be", hash))

abbrev local : ObjectInfo
local = record { uncompressed_size = 10; file_count = 2 }

abbrev world : World
world = record {
  resident = λ (repo, (side, hash)). if str_eq hash "lost" then none else some local;
  stat_fails = λ (repo, (side, hash)). str_eq hash "new";
  delete_fails = λ id. false;
  save_fails = λ id. false;
}

abbrev ids : List ArtifactId
ids = backend "new" ∷ backend "cut" ∷ backend "lost" ∷ []

abbrev bucket : Bucket
bucket =
    (backend "cut", record { uncompressed_size = 10; file_count = 1 })
    ∷ (backend "lost", record { uncompressed_size = 0; file_count = 0 })
    ∷ []

cut-IsReady : IsReady world (backend "cut")
cut-IsReady = record { stat = refl; delete = refl; save = refl; content = λ l e. ground arith }

reconcile_spares_example :
    find (backend "lost") (reconcile_refs world ids (new_report 3) bucket).1
    ≡ find (backend "lost") bucket
reconcile_spares_example = reconcile_spares world ids (backend "lost") (new_report 3) bucket refl

-- The call for the artifact in front fails, and the pass goes on.
reconcile_heals_example :
    IsHealthy world (backend "cut") (reconcile_refs world ids (new_report 3) bucket).1
    ⊎ (world.resident (backend "cut") ≡ none)
reconcile_heals_example =
    reconcile_heals world ids (backend "cut") (new_report 3) bucket refl cut-IsReady

abbrev row : DeployRow
row = record {
  id = 1;
  repo_id = 1;
  repo_name = "app";
  sha = 1 ∷ [];
  short_sha = 1 ∷ [];
  meta = record { ref = ""; branch = ""; author_name = ""; author_email = ""; created_by = "" };
  fe_hash = "";
  be_hash = "new";
  project_dir = "";
  artifacts = ("cli", record { hash = "cut"; log_path = ""; status = ""; error = "" }) ∷ [];
  status = ready;
  error = "";
  attempt_count = 0;
  created_at = "noon";
}

collect_from-CoversRow_example :
    All
      (λ r. is_ready r.status ≡ true → CoversRow (collect_from (row ∷ row ∷ []) []) r)
      (row ∷ row ∷ [])
collect_from-CoversRow_example = collect_from-CoversRow (row ∷ row ∷ []) []
