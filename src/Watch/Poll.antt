-- ===== src/Watch/Poll.antt =====
-- PollAll, pollRepo and reconcile, with the watch_baselines table of internal/db/repos.go.
use local_preview.Base.{
  ℕ, String, Bool, true, false, not, ◌&&◌, ◌||◌, Option, none, some, List, [], ◌∷◌, ◌++◌, ◌==◌,
  if◌then◌else◌, any, list_same, keep, map, ltb, Table, put, find, ℕ_comparable,
}
use local_preview.Db.Deploys.{DeployRow, Sha}
use local_preview.Build.{World, Repo, repo_ready, repo_cloning, repo_failed, ok, err, Outcome}
use local_preview.Build.Queries.{get_deploy_by_sha, codes}
use local_preview.Build.Request.{Git, request_deploy}
use local_preview.Build.Unreachable.{evict_unreachable}
use local_preview.Watch.Globs.{Text, split_patterns, match_branch}

-- gitrepo.BranchTip
pub record Tip : Type 0 where
  pub branch : Text
  pub sha : Sha

pub record PassState : Type 0 where
  pub tips : List Tip
  pub max_deploy_id : ℕ

-- The watcher's own state and the tables that it shares with the queue.
pub record Watcher : Type 0 where
  pub queue : World
  pub baselines : List (ℕ × Sha)
  pub last_pass : Table ℕ PassState

abbrev pub row_of : ℕ → ℕ × Sha → Bool
row_of repo_id (r, _) = r == repo_id

abbrev pub has_sha : Sha → List Sha → Bool
has_sha sha = any (list_same sha)

-- LatestDeployID
unfoldable pub latest_deploy_id : ℕ → List DeployRow → ℕ
latest_deploy_id repo_id [] = 0
latest_deploy_id repo_id (d ∷ ds) =
    let rest = latest_deploy_id repo_id ds in
    if d.repo_id == repo_id && ltb rest d.id then d.id else rest

-- WatchBaseline, asked of one sha
unfoldable pub in_baseline : ℕ → Sha → List (ℕ × Sha) → Bool
in_baseline repo_id sha = any (λ (e : ℕ × Sha). e.0 == repo_id && list_same e.1 sha)

abbrev pub tip_shas : List Tip → List Sha
tip_shas = map (λ t. t.sha)

abbrev pub baseline_rows : ℕ → List Sha → List (ℕ × Sha)
baseline_rows repo_id = map (λ sha. (repo_id, sha))

abbrev pub mark_baselined : ℕ → List Repo → List Repo
mark_baselined id = map (λ r. if r.id == id then record r { watch_baselined = true } else r)

-- SetWatchBaseline
unfoldable pub set_watch_baseline : ℕ → List Sha → Watcher → Watcher
set_watch_baseline id shas w = record w {
  baselines = keep (λ e. not (row_of id e)) w.baselines ++ baseline_rows id shas;
  queue = record w.queue { repos = mark_baselined id w.queue.repos };
}

-- PruneWatchBaseline
unfoldable pub prune_watch_baseline : ℕ → List Sha → Watcher → Watcher
prune_watch_baseline id tips w = record w {
  baselines = keep (λ e. not (row_of id e) || has_sha e.1 tips) w.baselines;
}

-- What the poller is given: git, path.Match, how a sha is written as a ref, and the time.
module _ (git : Git) (path_match : Text → Text → Option Bool) (spell : Sha → String)
    (now : String) where
  abbrev pub wants : Repo → Watcher → Tip → Bool
  wants repo w tip =
      match_branch path_match (split_patterns (codes repo.watch_branches)) tip.branch
      && not (in_baseline repo.id tip.sha w.baselines)

  abbrev pub request_tip : Repo → Tip → Option DeployRow → Watcher → Watcher
  request_tip repo tip (some d) w = w
  request_tip repo tip none w = record w {
    queue = (request_deploy git now repo.name (spell tip.sha) false "" w.queue).0;
  }

  -- The loop over the tips; a request that fails is only logged.
  unfoldable pub request_tips : Repo → List Tip → Watcher → Watcher
  request_tips repo [] w = w
  request_tips repo (tip ∷ tips) w =
      if wants repo w tip
      then request_tips repo tips
          (request_tip repo tip (get_deploy_by_sha repo.id tip.sha w.queue.db.deploys) w)
      else request_tips repo tips w

  -- if len(baseline) > 0
  abbrev pub prune_some : Repo → List Tip → Watcher → Watcher
  prune_some repo tips w =
      if any (row_of repo.id) w.baselines then prune_watch_baseline repo.id (tip_shas tips) w else w

  abbrev pub remember : Repo → List Tip → Watcher → Watcher
  remember repo tips w = record w {
    last_pass =
        put repo.id
          (record { tips = tips; max_deploy_id = latest_deploy_id repo.id w.queue.db.deploys })
          w.last_pass;
  }

  abbrev pub after_evict : Repo → List Tip → Watcher → Outcome ℕ → Watcher
  after_evict repo tips w (queue, err e) = record w { queue = queue }
  after_evict repo tips w (queue, ok n) = remember repo tips (record w { queue = queue })

  abbrev pub evict_pass : Bool → Repo → List Tip → Watcher → Watcher
  evict_pass false repo tips w = remember repo tips w
  evict_pass true repo tips w =
      let u = prune_some repo tips w in
      after_evict repo tips u (evict_unreachable git repo (tip_shas tips) u.queue)

  abbrev pub baselined : Repo → List Tip → Watcher → Watcher
  baselined repo tips w =
      if repo.watch_baselined then w else set_watch_baseline repo.id (tip_shas tips) w

  unfoldable pub reconcile : Repo → List Tip → Bool → Watcher → Watcher
  reconcile repo tips evict w =
      evict_pass evict repo tips (request_tips repo tips (baselined repo tips w))

  -- What a fetch reports (`none` when it fails, and otherwise whether refs moved) and the tips.
  abbrev pub full_pass : Repo → Option (List Tip) → Watcher → Watcher
  full_pass repo none w = w
  full_pass repo (some tips) w = reconcile repo tips true w

  abbrev pub quiet_pass : Repo → PassState → Watcher → Watcher
  quiet_pass repo prev w =
      reconcile repo prev.tips
        (ltb prev.max_deploy_id (latest_deploy_id repo.id w.queue.db.deploys)) w

  abbrev pub pass : Repo → Bool → Option PassState → Option (List Tip) → Watcher → Watcher
  pass repo false (some prev) tips w = quiet_pass repo prev w
  pass repo false none tips w = full_pass repo tips w
  pass repo true prev tips w = full_pass repo tips w

  unfoldable pub poll_repo : Option Bool → Option (List Tip) → Repo → Watcher → Watcher
  poll_repo none tips repo w = w
  poll_repo (some changed) tips repo w = pass repo changed (find repo.id w.last_pass) tips w

  abbrev pub is_polled : Repo → Bool
  is_polled repo =
      repo.watch
      && elim repo.status [ repo_cloning ↦ false | repo_ready ↦ true | repo_failed ↦ false ]

  module _ (fetched : Repo → Option Bool) (branch_tips : Repo → Option (List Tip)) where
    unfoldable pub poll_repos : List Repo → Watcher → Watcher
    poll_repos [] w = w
    poll_repos (r ∷ rs) w =
        if is_polled r
        then poll_repos rs (poll_repo (fetched r) (branch_tips r) r w)
        else poll_repos rs w

    abbrev pub forget_unpolled : List Repo → Table ℕ PassState → Table ℕ PassState
    forget_unpolled repos =
        keep (λ (e : ℕ × PassState). any (λ r. is_polled r && r.id == e.0) repos)

    -- PollAll, while its context is not cancelled
    unfoldable pub poll_all : Watcher → Watcher
    poll_all w =
        let repos = w.queue.repos in
        let u = poll_repos repos w in record u { last_pass = forget_unpolled repos u.last_pass }
