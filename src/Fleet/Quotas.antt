-- ===== src/Fleet/Quotas.antt =====
-- minWarmQuotas and the settings that StartHeartbeats pushes, in internal/fleet/fleet.go. The report
-- is the fleet's, one entry for each process of each worker. Go's unstable sort is an insertion sort
-- by the same comparison. A setting that was never made, -1 in the source, is none.
pub mod Shares
mod Examples
use local_preview.Base.{
  ℕ, zero, suc, ◌+◌, String, Bool, true, false, not, Option, none, some, List, [], ◌∷◌, ◌==◌, ltb,
  if◌then◌else◌, keep, Table, find, put, String_comparable,
}
use local_preview.Supervise.Manager.{Status, idle, starting, running, crashed}
use local_preview.Fleet.Registry.{Heartbeat}

pub record Entry : Type 0 where
  pub worker_id : String
  pub status : Status
  pub last_touch : ℕ

-- Status is StatusRunning or StatusStarting
abbrev pub is_live : Entry → Bool
is_live e = elim e.status [ idle ↦ false | starting ↦ true | running ↦ true | crashed ↦ false ]

unfoldable pub insert_entry : Entry → List Entry → List Entry
insert_entry e [] = e ∷ []
insert_entry e (f ∷ fs) =
    if ltb e.last_touch f.last_touch then f ∷ insert_entry e fs else e ∷ f ∷ fs

-- sort.Slice(cands, …touch.After…)
unfoldable pub sort_entries : List Entry → List Entry
unfolding insert_entry
sort_entries [] = []
sort_entries (e ∷ es) = insert_entry e (sort_entries es)

-- quotas[id], 0 for a worker that is absent
abbrev pub quota_of : String → Table String ℕ → ℕ
quota_of id quotas = elim (find id quotas) [ none ↦ 0 | some n ↦ n ]

-- for i := 0; i < len(cands) && i < want; i++ { quotas[cands[i].workerID]++ }
unfoldable pub share : ℕ → List Entry → Table String ℕ → Table String ℕ
share zero es quotas = quotas
share (suc want) [] quotas = quotas
share (suc want) (e ∷ es) quotas =
    share want es (put e.worker_id (suc (quota_of e.worker_id quotas)) quotas)

-- minWarmQuotas
unfoldable pub min_warm_quotas : Option ℕ → Bool → List Entry → Option (Table String ℕ)
unfolding sort_entries share
min_warm_quotas none active report = none
min_warm_quotas (some want) active report =
    if active then some (share want (sort_entries (keep is_live report)) []) else some []

-- workerapi.WorkerConfig
pub record WorkerConfig : Type 0 where
  pub max_warm : Option ℕ
  pub min_warm : Option ℕ
  pub idle_timeout_seconds : Option ℕ

-- want >= 0 && reported != want
abbrev pub drift : Option ℕ → ℕ → Option ℕ
drift none reported = none
drift (some want) reported = if reported == want then none else some want

-- The settings that a heartbeat poll pushes to a worker
abbrev pub config_for :
    Option ℕ → Option (Table String ℕ) → Option ℕ → String → Heartbeat → WorkerConfig
config_for max_warm quotas idle_seconds id hb = record {
  max_warm = drift max_warm hb.max_warm;
  min_warm = elim quotas [
    | none ↦ none
    | some table ↦ drift (some (quota_of id table)) hb.min_warm
  ];
  idle_timeout_seconds = drift idle_seconds hb.idle_timeout_seconds;
}

-- The worker's side: a field that is set is applied, as its next heartbeat reports.
abbrev pub setting : Option ℕ → ℕ → ℕ
setting none before = before
setting (some n) before = n

abbrev pub configure : WorkerConfig → Heartbeat → Heartbeat
configure cfg hb = record hb {
  max_warm = setting cfg.max_warm hb.max_warm;
  min_warm = setting cfg.min_warm hb.min_warm;
  idle_timeout_seconds = setting cfg.idle_timeout_seconds hb.idle_timeout_seconds;
}
