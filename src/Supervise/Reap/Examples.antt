-- ===== src/Supervise/Reap/Examples.antt =====
-- A pass over one paired frontend, its backend, and two older processes.
use Prim.Native.Nat.{min}
use local_preview.Base.{
  ℕ, ◌*◌, ◌≤◌, ◌≡◌, ◌⊎◌, true, List, [], ◌∷◌, ◌++◌, arith, length, take, All, Table,
}
use local_preview.Supervise.Keys.{Key, backend_key, frontend_key}
use local_preview.Supervise.Manager.{Process, fresh_process}
use local_preview.Supervise.Reap.{Cand, Policy, candidates, paired, reap_sorted, reap}
use local_preview.Supervise.Reap.Prune.{IsExempt, reap_sorted_target}
use local_preview.Supervise.Reap.LeastRecent.{IsJustified, reap_least_recent}

abbrev minute : ℕ
minute = 60_000_000_000

abbrev alive_since : ℕ → Process
alive_since touch = record (fresh_process 0 "app") {
  launched = true;
  ready = true;
  last_touch = touch;
  idle_after = 30 * minute;
}

abbrev table : Table Key Process
table =
    (backend_key 1 "old", alive_since (10 * minute))
    ∷ (backend_key 1 "be", alive_since (39 * minute))
    ∷ (frontend_key 1 "fe" "be", alive_since (39 * minute))
    ∷ (backend_key 1 "mid", alive_since (20 * minute))
    ∷ []

abbrev policy : Policy
policy = record { min_warm = 1; max_warm = 2; override = 0 }

abbrev cands : List Cand
cands = candidates table

reap_least_recent_example :
    let r = reap policy (41 * minute) table in
    All (IsJustified (paired (candidates table)) policy (41 * minute) r.alive) r.stopped
reap_least_recent_example = reap_least_recent policy (41 * minute) table

reap_sorted_target_example :
    let r = reap_sorted (paired cands) policy (41 * minute) cands in
    (others : List Cand) × (r.alive ≡ take (min 1 4) cands ++ others)
    × ((length r.alive ≤ 2) ⊎ All (IsExempt (paired cands) (41 * minute)) others)
reap_sorted_target_example =
    reap_sorted_target (paired cands) policy (41 * minute) cands (omega arith)
