-- ===== src/Supervise/Manager.antt =====
-- The process table of supervise.Manager: the critical sections of EnsureRunning, of the start and
-- exit paths and of the stops, each as one function on the state. The `fail` closure of start is two
-- of them, note_failure and forget. A process is a Go pointer in the source; here it is told from
-- others by `uid`, which is never reused. `ready` and `exited` say that its channels of that name
-- (`ready`, `done`) are closed, and `launched` that its cmd or containerID is set. Times are
-- nanoseconds of one clock.
pub mod Touch
pub mod Cases
pub mod Calm
pub mod Exclusive
pub mod Breaks
pub mod Reach
pub mod Stale
mod Examples
use local_preview.Base.{
  ℕ, suc, ◌+◌, String, Bool, true, false, ◌&&◌, ◌||◌, not, Option, none, some, List, [], ◌∷◌, ◌==◌,
  if◌then◌else◌, length, any, str_eq, Table, find, put, delete,
}
use local_preview.Supervise.Keys.{
  Key, Side, backend, frontend, side_same, backend_key, is_paired_frontend, Key_comparable,
}

pub record Process : Type 0 where
  pub uid : ℕ
  pub repo_name : String
  pub port : ℕ
  pub launched : Bool
  pub ready : Bool
  pub exited : Bool
  pub last_touch : ℕ
  pub idle_after : ℕ

pub record Manager : Type 0 where
  pub procs : Table Key Process
  pub failures : Table Key String
  pub warm_hits : ℕ
  pub cold_starts : ℕ
  pub stopping : Bool
  pub next_uid : ℕ

abbrev pub new_manager : Manager
new_manager = record {
  procs = [];
  failures = [];
  warm_hits = 0;
  cold_starts = 0;
  stopping = false;
  next_uid = 0;
}

pub data Status : Type 0 where
  idle starting running crashed : Status

abbrev pub status_of : Option Process → Option String → Status
status_of none none = idle
status_of none (some detail) = crashed
status_of (some p) f = if p.ready then running else starting

-- Status
unfoldable pub status : Key → Manager → Status
status k m = status_of (find k m.procs) (find k m.failures)

-- LastFailure
unfoldable pub last_failure : Key → Manager → Option String
last_failure k m = find k m.failures

abbrev pub fresh_process : ℕ → String → Process
fresh_process uid repo_name = record {
  uid = uid;
  repo_name = repo_name;
  port = 0;
  launched = false;
  ready = false;
  exited = false;
  last_touch = 0;
  idle_after = 0;
}

-- if bp := m.procs[BackendKey(k.RepoID, k.Peer)]; bp != nil { bp.lastTouch = p.lastTouch }
abbrev pub touch_peer : Key → ℕ → Table Key Process → Table Key Process
touch_peer k now procs =
    if is_paired_frontend k
    then (elim (find (backend_key k.repo_id k.peer) procs) [
      | none ↦ procs
      | some bp ↦ put (backend_key k.repo_id k.peer) (record bp { last_touch = now }) procs
    ])
    else procs

-- The table after the entry for `k` is found or made: the touch of it and of its peer.
abbrev touched : Key → Process → ℕ → Table Key Process → Table Key Process
touched k p now procs = touch_peer k now (put k (record p { last_touch = now }) procs)

-- What EnsureRunning goes on with: the process that it waits for, or a refusal.
pub data Entry : Type 0 where
  refused : Entry
  waits : Process → Entry

pub enter_missing : Key → String → ℕ → Manager → Entry × Manager
enter_missing k repo_name now m = (
  waits (record (fresh_process m.next_uid repo_name) { last_touch = now }),
  record m {
    procs = touched k (fresh_process m.next_uid repo_name) now m.procs;
    failures = delete k m.failures;
    cold_starts = m.cold_starts + 1;
    next_uid = suc m.next_uid;
  },
)

pub enter_found : Key → Process → ℕ → Manager → Entry × Manager
enter_found k p now m = (
  waits (record p { last_touch = now }),
  record m {
    procs = touched k p now m.procs;
    warm_hits = if p.ready then m.warm_hits + 1 else m.warm_hits;
    cold_starts = if p.ready then m.cold_starts else m.cold_starts + 1;
  },
)

-- The section of EnsureRunning under m.mu.
unfoldable pub ensure_entry : Key → String → ℕ → Manager → Entry × Manager
unfolding enter_missing enter_found
ensure_entry k repo_name now m = if m.stopping then (refused, m) else elim (find k m.procs) [
  | none ↦ enter_missing k repo_name now m
  | some p ↦ enter_found k p now m
]

-- forget: only while `p` is still the tracked entry
unfoldable pub forget : Key → ℕ → Manager → Manager
forget k uid m = elim (find k m.procs) [
  | none ↦ m
  | some p ↦ if p.uid == uid then record m { procs = delete k m.procs } else m
]

-- noteFailure
unfoldable pub note_failure : Key → String → Manager → Manager
note_failure k detail m = record m { failures = put k detail m.failures }

-- clearFailure
unfoldable pub clear_failure : Key → Manager → Manager
clear_failure k m = record m { failures = delete k m.failures }

-- noteExit: a healthy process that died on its own, unless the key has a newer process
unfoldable pub note_exit : Key → ℕ → Bool → Bool → String → Manager → Manager
note_exit k uid exit_ok was_ready exit m =
    if exit_ok || not was_ready then m else elim (find k m.procs) [
      | none ↦ record m { failures = put k exit m.failures }
      | some cur ↦ if cur.uid == uid then record m { failures = put k exit m.failures } else m
    ]

-- A write through the pointer to a process, as far as the table still has it.
unfoldable pub amend : Key → ℕ → (Process → Process) → Manager → Manager
amend k uid f m = elim (find k m.procs) [
  | none ↦ m
  | some p ↦ if p.uid == uid then record m { procs = put k (f p) m.procs } else m
]

-- start, once the child or container runs
abbrev pub launch : Key → ℕ → ℕ → ℕ → Manager → Manager
launch k uid port idle_after =
    amend k uid (λ p. record p { port = port; idle_after = idle_after; launched = true })

-- start, after awaitHealthy: close(p.ready)
abbrev pub healthy : Key → ℕ → Manager → Manager
healthy k uid = amend k uid (λ p. record p { ready = true })

-- The watcher of the child, after cmd.Wait: close(p.done), before forget
abbrev pub finish : Key → ℕ → Manager → Manager
finish k uid = amend k uid (λ p. record p { exited = true })

-- stopLocked begins with clear_failure and a look at the table, and waits for the process that it
-- found to exit; this is its last section. A process that no start has launched yet is left to its
-- start.
unfoldable pub end_stop : Key → Option Process → Manager → Manager
end_stop k none m = m
end_stop k (some p) m = if p.launched then forget k p.uid m else m

abbrev pub keys_of : Table Key Process → List Key
keys_of [] = []
keys_of ((k, p) ∷ m) = k ∷ keys_of m

-- StopAll: its section under m.mu, and the keys of which each then gets a Stop
unfoldable pub stop_all : Manager → List Key × Manager
stop_all m = (keys_of m.procs, record m { stopping = true })

abbrev pub keys_of_repo : ℕ → Table Key Process → List Key
keys_of_repo repo_id [] = []
keys_of_repo repo_id ((k, p) ∷ m) =
    if k.repo_id == repo_id then k ∷ keys_of_repo repo_id m else keys_of_repo repo_id m

abbrev pub without_repo : ℕ → Table Key String → Table Key String
without_repo repo_id [] = []
without_repo repo_id ((k, f) ∷ m) =
    if k.repo_id == repo_id then without_repo repo_id m else (k, f) ∷ without_repo repo_id m

-- StopRepo, in the same way
unfoldable pub stop_repo : ℕ → Manager → List Key × Manager
stop_repo repo_id m =
    (keys_of_repo repo_id m.procs, record m { failures = without_repo repo_id m.failures })

-- CrashedKeys
abbrev pub crashed_among : Table Key String → Table Key Process → List Key
crashed_among [] procs = []
crashed_among ((k, f) ∷ m) procs = elim (find k procs) [
  | none ↦ k ∷ crashed_among m procs
  | some p ↦ crashed_among m procs
]

unfoldable pub crashed_keys : Manager → List Key
crashed_keys m = crashed_among m.failures m.procs

-- IsArtifactLive
unfoldable pub is_artifact_live : String → Side → String → Manager → Bool
is_artifact_live repo_name side hash m =
    any
      (λ (e : Key × Process).
        str_eq e.1.repo_name repo_name && side_same e.0.side side && str_eq e.0.hash hash)
      m.procs

-- Running
abbrev pub running_count : Manager → ℕ
running_count m = length m.procs
