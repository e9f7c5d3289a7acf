-- ===== src/Supervise/Reap.antt =====
-- Manager.reap of internal/supervise/supervise.go: which processes one pass of the reaper stops.
-- The pass reads a snapshot of the table, so it is a function from the candidates to the stops. Go
-- ranges over its map in any order and sorts with an unstable sort: the model takes the table's own
-- order and an insertion sort by the same comparison. Times and durations are nanoseconds; the
-- setters keep every duration and count from being negative.
pub mod Floor
pub mod Idle
pub mod Prune
pub mod Order
pub mod LeastRecent
mod Examples
use Prim.Native.Nat.{min}
use local_preview.Base.{
  ℕ, zero, suc, ◌+◌, ◌-◌, ◌*◌, Bool, true, false, ◌&&◌, ◌||◌, not, Option, none, some, List, [],
  ◌∷◌, ◌++◌, ◌==◌, ltb, leb, if◌then◌else◌, length, any, take, drop, rev, Table,
}
use local_preview.Supervise.Keys.{
  Key, backend, frontend, side_same, backend_key, is_paired_frontend, key_same,
}
use local_preview.Supervise.Manager.{Process}

pub record Cand : Type 0 where
  pub key : Key
  pub touch : ℕ
  pub idle : ℕ

pub record Policy : Type 0 where
  pub min_warm : ℕ
  pub max_warm : ℕ
  pub override : ℕ

-- isReady(p) && !isExited(p)
abbrev pub candidates : Table Key Process → List Cand
candidates [] = []
candidates ((k, p) ∷ m) =
    if p.ready && not p.exited
    then record { key = k; touch = p.last_touch; idle = p.idle_after } ∷ candidates m
    else candidates m

-- This candidate is a frontend that puts `bk` into pairedTouch: its touch is after the zero time.
abbrev pub pairs_with : Key → Cand → Bool
pairs_with bk c =
    is_paired_frontend c.key && key_same (backend_key c.key.repo_id c.key.peer) bk && ltb 0 c.touch

-- _, paired := pairedTouch[k]
unfoldable pub paired : List Cand → Key → Bool
paired all bk = any (pairs_with bk) all

-- The comparison of sort.Slice: most recent first, and of a pair the backend first.
abbrev pub sorts_before : Cand → Cand → Bool
sorts_before a b =
    if a.touch == b.touch
    then side_same a.key.side backend && side_same b.key.side frontend
    else ltb b.touch a.touch

unfoldable pub insert_cand : Cand → List Cand → List Cand
insert_cand c [] = c ∷ []
insert_cand c (d ∷ ds) = if sorts_before d c then d ∷ insert_cand c ds else c ∷ d ∷ ds

unfoldable pub sort_cands : List Cand → List Cand
unfolding insert_cand
sort_cands [] = []
sort_cands (c ∷ cs) = insert_cand c (sort_cands cs)

-- const warmActiveWindow = 2 * time.Minute
abbrev pub warm_active_window : ℕ
warm_active_window = 2 * 60 * 1_000_000_000

-- idle := c.idle; if override > 0 { idle = override }
abbrev pub effective_idle : Policy → Cand → ℕ
effective_idle pol c = if ltb 0 pol.override then pol.override else c.idle

-- idle > 0 && now.Sub(c.touch) > idle
abbrev pub timed_out : Policy → ℕ → Cand → Bool
timed_out pol now c = ltb 0 (effective_idle pol c) && ltb (c.touch + effective_idle pol c) now

-- now.Sub(c.touch) < warmActiveWindow
abbrev pub is_active : ℕ → Cand → Bool
is_active now c = ltb now (c.touch + warm_active_window)

-- What a pass decides: the keys that it stops, in order, and the candidates that stay.
pub record Sweep : Type 0 where
  pub stopped : List Cand
  pub alive : List Cand

-- for _, c := range cands[floor:]
module _ (is_paired : Key → Bool) (pol : Policy) (now : ℕ) where
  unfoldable pub idle_pass : List Cand → Sweep
  idle_pass [] = record { stopped = []; alive = [] }
  idle_pass (c ∷ cs) =
      let rest = idle_pass cs in
      if is_paired c.key
      then record { stopped = rest.stopped; alive = c ∷ rest.alive }
      else if timed_out pol now c
      then record { stopped = c ∷ rest.stopped; alive = rest.alive }
      else record { stopped = rest.stopped; alive = c ∷ rest.alive }

-- for i := len(alive) - 1; i >= floor && excess > 0; i--, over alive[floor:] from its end
module _ (is_paired : Key → Bool) (now : ℕ) where
  unfoldable pub prune_from_end : ℕ → List Cand → Sweep
  prune_from_end zero cs = record { stopped = []; alive = cs }
  prune_from_end (suc excess) [] = record { stopped = []; alive = [] }
  prune_from_end (suc excess) (c ∷ cs) =
      if is_paired c.key || is_active now c
      then (let rest = prune_from_end (suc excess) cs in
          record { stopped = rest.stopped; alive = c ∷ rest.alive })
      else (let rest = prune_from_end excess cs in
          record { stopped = c ∷ rest.stopped; alive = rest.alive })

-- target <= 0 || len(alive) <= target, else the pruning of what is above the target
abbrev pub prune_pass : (Key → Bool) → Policy → ℕ → List Cand → List Cand → Sweep
prune_pass is_paired pol now protected others =
    if pol.max_warm == 0 || leb (length protected + length others) pol.max_warm
    then record { stopped = []; alive = rev others }
    else prune_from_end is_paired now (length protected + length others - pol.max_warm) (rev others)

-- reap on candidates in sorted order: the floor, the idle pass and the pruning
unfoldable pub reap_sorted : (Key → Bool) → Policy → ℕ → List Cand → Sweep
unfolding idle_pass prune_from_end
reap_sorted is_paired pol now cands =
    let floor = min pol.min_warm (length cands) in
    let idle = idle_pass is_paired pol now (drop floor cands) in
    let pruned = prune_pass is_paired pol now (take floor cands) idle.alive in
    record {
      stopped = idle.stopped ++ pruned.stopped;
      alive = take floor cands ++ rev pruned.alive;
    }

-- reap
pub reap : Policy → ℕ → Table Key Process → Sweep
unfolding paired sort_cands reap_sorted
reap pol now procs = reap_sorted (paired (candidates procs)) pol now (sort_cands (candidates procs))
