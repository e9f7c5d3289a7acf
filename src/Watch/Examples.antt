-- ===== src/Watch/Examples.antt =====
-- Runs of the branch patterns and of a first pass, and the theorems at concrete inputs.
use local_preview.Base.{
  ◌≡◌, refl, Bool, true, false, Option, none, some, List, [], ◌∷◌, ◌↔◌, list_same, ℕ_comparable,
}
use local_preview.Build.{Repo, repo_ready}
use local_preview.Build.Queries.{codes}
use local_preview.Build.Request.{Git}
use local_preview.Build.Changes.{Advances}
use local_preview.Watch.Globs.{
  Text, split_patterns, split, match_segments, match_branch, match_glob, match_from, trim_space,
  trim_left, trim_parts, split_from, cut_bang,
}
use local_preview.Watch.Matching.{Matches, match_segments_iff}
use local_preview.Watch.Branches.{is_built, match_branch_lem}
use local_preview.Watch.Poll.{Tip, Watcher, reconcile}
use local_preview.Watch.Baseline.{reconcile_first}

-- path.Match for patterns without wildcards.
abbrev literal : Text → Text → Option Bool
literal p n = some (list_same p n)

abbrev patterns : List Text
patterns = codes "main" ∷ codes "release/**" ∷ codes "!release/old" ∷ []

splits : split_patterns (codes "main, release/** ,,!release/old") ≡ patterns
unfolding split_patterns split split_from trim_parts trim_space trim_left
splits = refl

deep : match_branch literal patterns (codes "release/2/rc") ≡ true
unfolding match_branch match_from match_glob match_segments cut_bang split split_from
deep = refl

excluded : match_branch literal patterns (codes "release/old") ≡ false
unfolding match_branch match_from match_glob match_segments cut_bang split split_from
excluded = refl

abbrev globs : List Text
globs = codes "release" ∷ codes "**" ∷ []

abbrev names : List Text
names = codes "release" ∷ codes "2" ∷ codes "rc" ∷ []

match_segments_iff_example :
    (match_segments literal globs names ≡ true) ↔ Matches literal globs names
match_segments_iff_example = match_segments_iff literal globs names

match_branch_lem_example :
    match_branch literal patterns (codes "main") ≡ is_built literal (codes "main") patterns
match_branch_lem_example = match_branch_lem literal (codes "main") patterns

abbrev git : Git
git = record {
  fetch = λ repo. true;
  resolve_ref = λ repo ref. some (97 ∷ []);
  is_branch = λ repo ref. true;
  branches_pointing_at = λ repo sha. none;
  commit_info = λ repo sha. none;
  unreachable_shas = λ repo shas tips. some [];
  read_file = λ repo sha path. none;
  archive = λ repo sha. true;
}

abbrev app : Repo
app = record {
  id = 1;
  name = "app";
  project_dir = "";
  status = repo_ready;
  error = "";
  watch = true;
  watch_branches = "";
  watch_baselined = false;
}

abbrev tips : List Tip
tips =
    record { branch = codes "main"; sha = 97 ∷ [] }
    ∷ record { branch = codes "dev"; sha = 98 ∷ [] }
    ∷ []

abbrev watcher : Watcher
watcher = record {
  queue = record {
    db = record { deploys = []; next_id = 1; aliases = []; insert_fails = λ short. false };
    repos = app ∷ [];
    work = [];
    rebuild = [];
    local = [];
    tier = none;
    uploads = [];
    state_dirs = [];
    frontend_rows = [];
    warmed = [];
    collected = [];
  };
  baselines = [];
  last_pass = [];
}

reconcile_first_example :
    Advances watcher.queue (reconcile git literal (λ sha. "a") "noon" app tips true watcher).queue
reconcile_first_example = reconcile_first git literal (λ sha. "a") "noon" app tips true watcher refl
