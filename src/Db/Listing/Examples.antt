-- ===== src/Db/Listing/Examples.antt =====
-- Listings of a repo with one deploy, while a second one is created.
use local_preview.Base.{ℕ, ◌≡◌, refl, true, false, [], ◌∷◌, arith, pos}
use local_preview.Db.Deploys.{
  Database, DeployRow, DeployMeta, Sha, ok, new_row, prefix, queued, insert_deploy, create_from,
  create_deploy,
}
use local_preview.Db.Listing.{SqlText, DeployFilter, crashed_any, list_deploys}
use local_preview.Db.Listing.Pages.{list_deploys-snapshot}

abbrev sql : SqlText
sql = record {
  contains = λ text part. false;
  sha_starts = λ sha part. true;
  status_text = λ s. "ready";
}

abbrev all : DeployFilter
all = record {
  repo = "app";
  branch = "";
  author = "";
  status = "";
  crashed = crashed_any;
  crashed_procs = record { repo_id = 1; fe_hash = ""; be_hash = "b1" } ∷ [];
  query = "1234";
  limit = pos 0;
  offset = pos 0;
  max_id = pos 0;
}

abbrev meta : DeployMeta
meta = record {
  ref = "main";
  branch = "main";
  author_name = "";
  author_email = "";
  created_by = "";
}

abbrev sha : Sha
sha = 1 ∷ 2 ∷ 3 ∷ 4 ∷ 5 ∷ 6 ∷ 7 ∷ 8 ∷ []

abbrev row : ℕ → Sha → DeployRow
row id s = record {
  id = id;
  repo_id = 1;
  repo_name = "app";
  sha = s;
  short_sha = prefix 7 s;
  meta = meta;
  fe_hash = "";
  be_hash = "";
  project_dir = "";
  artifacts = [];
  status = queued;
  error = "";
  attempt_count = 0;
  created_at = "noon";
}

abbrev before : Database
before = record {
  deploys = row 1 (9 ∷ sha) ∷ [];
  next_id = 2;
  aliases = [];
  insert_fails = λ short. false;
}

abbrev after : Database
after = record {
  deploys = row 2 sha ∷ before.deploys;
  next_id = 3;
  aliases = [];
  insert_fails = λ short. false;
}

created : create_deploy before 1 "app" sha meta "noon" ≡ ok (row 2 sha, after)
unfolding create_deploy create_from insert_deploy new_row
created = refl

list_deploys-snapshot_example :
    list_deploys sql (record all { max_id = pos 1 }) after
    ≡ list_deploys sql (record all { max_id = pos 1 }) before
list_deploys-snapshot_example =
    list_deploys-snapshot sql all 1 1 "app" sha meta "noon" before after (row 2 sha) (omega arith)
      (omega arith) created
