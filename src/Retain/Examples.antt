-- ===== src/Retain/Examples.antt =====
-- A sweep with a count limit of one over a repo with three finished deploys.
use local_preview.Base.{ℕ, false, true, refl, String, none, [], ◌∷◌, arith, All, pos}
use local_preview.Db.Deploys.{DeployMeta, DeployRow, Database, DeployStatus, ready, failed}
use local_preview.Db.Deploys.Valid.{IsValid}
use local_preview.Supervise.Collect.Spares.{IsFree}
use local_preview.Retain.{Policy, World, sweep}
use local_preview.Retain.Limits.{Swept, sweep-Swept}
use local_preview.Retain.Newest.{IsSuperseded, sweep-IsSuperseded}
use local_preview.Retain.Reclaims.{sweep-ReclaimsFree}

abbrev meta : DeployMeta
meta = record {
  ref = "main";
  branch = "main";
  author_name = "";
  author_email = "";
  created_by = "";
}

abbrev deploy : ℕ → DeployStatus → String → DeployRow
deploy id status be_hash = record {
  id = id;
  repo_id = 1;
  repo_name = "app";
  sha = id ∷ [];
  short_sha = id ∷ [];
  meta = meta;
  fe_hash = "f1";
  be_hash = be_hash;
  project_dir = "";
  artifacts = [];
  status = status;
  error = "";
  attempt_count = 0;
  created_at = "noon";
}

abbrev database : Database
database = record {
  deploys = deploy 3 ready "b2" ∷ deploy 2 failed "b1" ∷ deploy 1 ready "b1" ∷ [];
  next_id = 4;
  aliases = [];
  insert_fails = λ short. false;
}

abbrev keep_one : Policy
keep_one = record { max_deploys_per_repo = pos 1; max_age_days = pos 0 }

abbrev world : World
world = record {
  parse_time = λ t. none;
  now = 0;
  update_fails = λ id. false;
  has_frontend_artifact = λ repo_id hash. true;
}

database-IsValid : IsValid database
database-IsValid = record {
  ordered = (omega arith, (omega arith, (omega arith, tt)));
  unique = (refl, (refl, (refl, tt)));
}

sweep-Swept_example : Swept keep_one world database (sweep keep_one world database)
sweep-Swept_example = sweep-Swept keep_one world database

sweep-IsSuperseded_example :
    All (IsSuperseded database.deploys) (sweep keep_one world database).evicted
sweep-IsSuperseded_example = sweep-IsSuperseded keep_one world database database-IsValid

sweep-ReclaimsFree_example :
    All (IsFree (sweep keep_one world database).db.deploys) (sweep keep_one world database).actions
sweep-ReclaimsFree_example = sweep-ReclaimsFree keep_one world database
