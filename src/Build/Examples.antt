-- ===== src/Build/Examples.antt =====
-- Runs of the deploy queue, and its theorems at concrete worlds.
use local_preview.Base.{
  find, ℕ, ◌≡◌, refl, true, false, none, some, List, [], ◌∷◌, arith, ltb, if◌then◌else◌,
}
use local_preview.Db.Deploys.{
  DeployRow, building, ready, set_deploy_ready, set_deploy_building, get_deploy_by_id,
  update_deploy, set_row, set_deploy_hashes, set_deploy_artifacts,
}
use local_preview.Build.{World, Repo, repo_ready, item, ok}
use local_preview.Build.Env.{Env, Settings, parsed, saved}
use local_preview.Build.Request.{take_rebuild, Git, request_deploy}
use local_preview.Build.Manifests.{load_manifest, load_from, resolve_hashes, artifact_hashes}
use local_preview.Build.Sides.{
  hydrate, persist_side, ensure_durable, enqueue_persist, build_side, run_steps,
}
use local_preview.Build.Process.{artifact_refs, build_deploy, build_sides, build_hashed, provision}
use local_preview.Build.Queries.{get_repo_by_name}
use local_preview.Build.Turn.{process, make_ready, build_artifacts, work_once}
use local_preview.Build.Retry.{
  Start, tried, retry_from, started, no_worker, EndsWith, start_with_retry,
  start_with_retry-EndsWith,
}
use local_preview.Build.Scheduled.{IsScheduled}
use local_preview.Build.Queued.{here, next, request, turn, QueueRun-IsScheduled}
use local_preview.Build.Ready.{Servable}
use local_preview.Build.Marked.{process-Servable}

-- A git in which every ref is one commit, and an environment in which everything works.
abbrev some_sha : List ℕ
some_sha = 97 ∷ 98 ∷ 99 ∷ 49 ∷ 50 ∷ 51 ∷ 52 ∷ 53 ∷ []

abbrev git : Git
git = record {
  fetch = λ repo. true;
  resolve_ref = λ repo ref. some some_sha;
  is_branch = λ repo ref. true;
  branches_pointing_at = λ repo sha. none;
  commit_info = λ repo sha. none;
  unreachable_shas = λ repo shas tips. some [];
  read_file = λ repo sha path. some "[backend]";
  archive = λ repo sha. true;
}

abbrev env : Env (Unit {0})
env = record {
  git = git;
  parse_at = λ raw table. parsed tt;
  parse = λ raw. parsed tt;
  read_local = λ repo. none;
  join = λ a b. b;
  scope = λ m dir. m;
  list_tree = λ row. true;
  artifacts_only = λ m. false;
  frontend_hash = λ m row. some "f1";
  backend_hash = λ m row. some "b1";
  artifact_names = λ m. [];
  artifact_hash = λ m name row. none;
  frontend_steps = λ m. ("make" ∷ []) ∷ [];
  frontend_runs = λ m. false;
  has_dist = λ m row. true;
  backend_steps = λ m. [];
  artifact_steps = λ m name. none;
  log_path = λ i. "log";
  open_log = λ i. true;
  run_step = λ row side command. true;
  new_scratch = λ name. true;
  publish = λ i overwrite. true;
  fetch_side = λ i. true;
  save = λ i. saved;
  create_frontend_artifact = λ repo fe. true;
  init_state_dir = λ repo be. true;
  message = λ e. "failed";
  cancelled = false;
}

abbrev settings : Settings
settings = record {
  manifest_refs = ("preview.toml", "") ∷ [];
  local_manifest_dir = false;
  auto_start = true;
}

abbrev app : Repo
app = record {
  id = 1;
  name = "app";
  project_dir = "";
  status = repo_ready;
  error = "";
  watch = true;
  watch_branches = "";
  watch_baselined = true;
}

abbrev row : DeployRow
row = record {
  id = 1;
  repo_id = 1;
  repo_name = "app";
  sha = some_sha;
  short_sha = some_sha;
  meta = record {
    ref = "main";
    branch = "main";
    author_name = "";
    author_email = "";
    created_by = "";
  };
  fe_hash = "";
  be_hash = "";
  project_dir = "";
  artifacts = [];
  status = building;
  error = "";
  attempt_count = 0;
  created_at = "noon";
}

abbrev world : World
world = record {
  db = record { deploys = row ∷ []; next_id = 2; aliases = []; insert_fails = λ short. false };
  repos = app ∷ [];
  work = [];
  rebuild = [];
  local = [];
  tier = some [];
  uploads = [];
  state_dirs = [];
  frontend_rows = [];
  warmed = [];
  collected = [];
}

abbrev hashed : DeployRow
hashed = record row { fe_hash = "f1"; be_hash = "b1" }

abbrev built : World
built = record world {
  db = record { deploys = hashed ∷ []; next_id = 2; aliases = []; insert_fails = λ short. false };
  local = item "app" "be" "b1" ∷ item "app" "fe" "f1" ∷ [];
  uploads = item "app" "fe" "f1" ∷ item "app" "be" "b1" ∷ [];
  state_dirs = (1, "b1") ∷ [];
}

abbrev uploaded : World
uploaded = record built { tier = some (item "app" "be" "b1" ∷ item "app" "fe" "f1" ∷ []) }

builds : build_deploy env settings row false world ≡ (built, ok tt)
unfolding build_deploy load_manifest load_from get_repo_by_name resolve_hashes artifact_hashes
    build_hashed set_deploy_hashes set_deploy_artifacts update_deploy set_row get_deploy_by_id
    artifact_refs build_sides hydrate build_side run_steps enqueue_persist provision
builds = refl

abbrev served_row : DeployRow
served_row = record hashed { status = ready }

marked : get_deploy_by_id 1 (process env settings 1 world).db.deploys ≡ some served_row
unfolding process build_deploy load_manifest load_from get_repo_by_name resolve_hashes
    artifact_hashes build_hashed set_deploy_hashes set_deploy_artifacts update_deploy set_row
    get_deploy_by_id artifact_refs build_sides hydrate build_side run_steps enqueue_persist
    provision ensure_durable persist_side make_ready set_deploy_ready set_deploy_building
    take_rebuild build_artifacts find
marked = refl

building_found : get_deploy_by_id 1 world.db.deploys ≡ some row
unfolding get_deploy_by_id
building_found = refl

process-Servable_example : Servable env served_row (process env settings 1 world)
process-Servable_example =
    process-Servable env settings 1 row served_row world building_found refl marked refl

-- The fleet has no worker twice, then one starts.
abbrev third_time : ℕ → Start
third_time i = if ltb i 2 then no_worker else started

retries : start_with_retry third_time (λ i. false) 16 ≡ tried started 3
unfolding start_with_retry retry_from
retries = refl

start_with_retry-EndsWith_example :
    EndsWith third_time (λ i. false) 16 (start_with_retry third_time (λ i. false) 16)
start_with_retry-EndsWith_example =
    start_with_retry-EndsWith third_time (λ i. false) 16 (omega arith)

abbrev idle : World
idle = record world {
  db = record { deploys = []; next_id = 1; aliases = []; insert_fails = λ short. false };
}

idle-IsScheduled : IsScheduled idle
unfolding get_deploy_by_id
idle-IsScheduled id h = ground arith

abbrev asked : World
asked = (request_deploy git "noon" "app" "main" false "" idle).0

QueueRun-IsScheduled_example : IsScheduled (work_once env settings asked)
QueueRun-IsScheduled_example =
    QueueRun-IsScheduled env idle-IsScheduled
      (next (next here (request "noon" "app" "main" false "")) (turn settings))
