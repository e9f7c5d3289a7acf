-- ===== src/Db/Deploys/Examples.antt =====
-- Runs of internal/db/deploys.go on a repo with two commits that share their first seven characters.
use local_preview.Base.{false, ℕ, ◌≡◌, ◌⊎◌, refl, true, [], ◌∷◌, arith, length, ◌≤◌}
use local_preview.Db.Deploys.{
  Database, DeployRow, DeployMeta, Sha, ok, err, conflict, no_short_sha, insert_failed, new_row,
  insert_deploy, create_from, create_deploy, prefix, has_sha, delete_deploy, queued,
}
use local_preview.Db.Deploys.Create.{
  Created, IsTaken, IsBroken, create_deploy-Created, create_deploy_errors,
}
use local_preview.Db.Deploys.Valid.{IsValid, create, remove, here, next, Steps-IsValid}

abbrev meta : DeployMeta
meta = record {
  ref = "main";
  branch = "main";
  author_name = "";
  author_email = "";
  created_by = "";
}

abbrev first_sha : Sha
first_sha = 1 ∷ 2 ∷ 3 ∷ 4 ∷ 5 ∷ 6 ∷ 7 ∷ 8 ∷ []

abbrev second_sha : Sha
second_sha = 1 ∷ 2 ∷ 3 ∷ 4 ∷ 5 ∷ 6 ∷ 7 ∷ 9 ∷ []

abbrev empty : Database
empty = record { deploys = []; next_id = 1; aliases = []; insert_fails = λ short. false }

abbrev row_of : ℕ → Sha → Sha → DeployRow
row_of id sha short = record {
  id = id;
  repo_id = 1;
  repo_name = "app";
  sha = sha;
  short_sha = short;
  meta = meta;
  fe_hash = "";
  be_hash = "";
  project_dir = "";
  artifacts = [];
  status = queued;
  error = "";
  attempt_count = 0;
  created_at = "noon";
}

abbrev one_deploy : Database
one_deploy = record {
  deploys = row_of 1 first_sha (prefix 7 first_sha) ∷ [];
  next_id = 2;
  aliases = ((1, "main"), 1) ∷ [];
  insert_fails = λ short. false;
}

abbrev two_deploys : Database
two_deploys = record {
  deploys = row_of 2 second_sha second_sha ∷ one_deploy.deploys;
  next_id = 3;
  aliases = one_deploy.aliases;
  insert_fails = λ short. false;
}

second_created :
    create_deploy one_deploy 1 "app" second_sha meta "noon"
    ≡ ok (row_of 2 second_sha second_sha, two_deploys)
unfolding create_deploy create_from insert_deploy new_row
second_created = refl

again_refused : create_deploy one_deploy 1 "app" first_sha meta "noon" ≡ err conflict
unfolding create_deploy create_from insert_deploy new_row
again_refused = refl

one_deploy-IsValid : IsValid one_deploy
one_deploy-IsValid = record { ordered = (omega arith, tt); unique = (refl, tt) }

create_deploy-Created_example :
    Created one_deploy 1 second_sha 7 9 (row_of 2 second_sha second_sha) two_deploys
create_deploy-Created_example =
    create_deploy-Created one_deploy 1 "app" second_sha meta "noon" (row_of 2 second_sha second_sha)
      two_deploys second_created

create_deploy_errors_example :
    ((conflict ≡ conflict) × (has_sha 1 first_sha one_deploy.deploys ≡ true))
    ⊎ (((conflict ≡ no_short_sha)
          × ((m : ℕ) → 7 ≤ m → m ≤ length first_sha → IsTaken one_deploy 1 (prefix m first_sha)))
        ⊎ ((conflict ≡ insert_failed) × IsBroken one_deploy 1 first_sha 7 9))
create_deploy_errors_example =
    create_deploy_errors one_deploy 1 "app" first_sha meta "noon" conflict again_refused

Steps-IsValid_example : IsValid (delete_deploy 1 two_deploys)
Steps-IsValid_example = Steps-IsValid one_deploy-IsValid (
    next
      (next here
        (create 1 "app" second_sha meta "noon" (row_of 2 second_sha second_sha) second_created))
      (remove 1 refl))
