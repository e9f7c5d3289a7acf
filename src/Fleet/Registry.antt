-- ===== src/Fleet/Registry.antt =====
-- Registry, workerState and the heartbeat bookkeeping of internal/fleet/fleet.go. The map of
-- workers is a list: Go ranges over it in any order. Times are nanoseconds, and 0 is the zero Time.
-- A worker's Backend, its transport, is not modelled. Counts are not negative: a worker's setters
-- keep them so.
pub mod Figures
pub mod Demand
pub mod Adds
use local_preview.Base.{
  ℕ, zero, suc, ◌+◌, ◌-◌, ◌*◌, String, Bool, true, false, ◌&&◌, ◌||◌, not, Option, none, some, List,
  [], ◌∷◌, ◌==◌, ltb, leb, if◌then◌else◌, length, str_eq, Table, put, ℕ_comparable,
  String_comparable, pair_comparable,
}
use local_preview.Supervise.Keys.{Key, frontend, side_same, is_paired_frontend}

-- workerapi.Heartbeat (internal/workerapi/workerapi.go), as far as the registry keeps it
pub record Heartbeat : Type 0 where
  pub running : ℕ
  pub max_warm : ℕ
  pub min_warm : ℕ
  pub idle_timeout_seconds : ℕ
  pub draining : Bool
  pub warm_hits : ℕ
  pub cold_starts : ℕ

abbrev pub zero_heartbeat : Heartbeat
zero_heartbeat = record {
  running = 0;
  max_warm = 0;
  min_warm = 0;
  idle_timeout_seconds = 0;
  draining = false;
  warm_hits = 0;
  cold_starts = 0;
}

-- workerState
pub record Worker : Type 0 where
  pub id : String
  pub instance_id : String
  pub hb : Heartbeat
  pub last_beat : ℕ
  pub reachable : Bool
  pub warm_base : ℕ
  pub cold_base : ℕ

-- What EnsureRunning places by: placementKey renders this pair as "<repo>/<hash>".
abbrev pub PlacementKey : Type 0
PlacementKey = ℕ × String

pub record Registry : Type 0 where
  pub workers : List Worker
  pub stale_after : ℕ
  pub unserved_demand : Table PlacementKey (Unit {0})

-- New
abbrev pub new_registry : ℕ → Registry
new_registry stale_after = record { workers = []; stale_after = stale_after; unserved_demand = [] }

abbrev pub new_worker : String → String → Worker
new_worker id instance_id = record {
  id = id;
  instance_id = instance_id;
  hb = zero_heartbeat;
  last_beat = 0;
  reachable = false;
  warm_base = 0;
  cold_base = 0;
}

unfoldable pub get_worker : String → List Worker → Option Worker
get_worker id [] = none
get_worker id (w ∷ ws) = if str_eq w.id id then some w else get_worker id ws

unfoldable pub set_worker : String → Worker → List Worker → List Worker
set_worker id v [] = v ∷ []
set_worker id v (w ∷ ws) = if str_eq w.id id then v ∷ ws else w ∷ set_worker id v ws

-- Add: a known worker keeps its state unless its endpoint comes back as another instance.
unfoldable pub add : String → String → Registry → Bool × Registry
add id instance_id r =
    let fresh : Bool × Registry =
      (true, record r { workers = set_worker id (new_worker id instance_id) r.workers }) in
    elim (get_worker id r.workers) [
      | none ↦ fresh
      | some w ↦ if str_eq w.instance_id instance_id then (false, r) else fresh
    ]

unfoldable pub remove_worker : String → List Worker → List Worker
remove_worker id [] = []
remove_worker id (w ∷ ws) = if str_eq w.id id then remove_worker id ws else w ∷ remove_worker id ws

-- Remove
unfoldable pub remove : String → Registry → Registry
remove id r = record r { workers = remove_worker id r.workers }

-- if hb.WarmHits < w.hb.WarmHits || hb.ColdStarts < w.hb.ColdStarts
abbrev pub restarted : Heartbeat → Heartbeat → Bool
restarted before now = ltb now.warm_hits before.warm_hits || ltb now.cold_starts before.cold_starts

-- recordHeartbeat, on the worker's own state
unfoldable pub beat : Heartbeat → ℕ → Bool → Worker → Worker
beat hb at reachable w =
    let seen = record w { last_beat = at; reachable = reachable } in
    if reachable
    then (if restarted w.hb hb
        then record seen {
          hb = hb;
          warm_base = w.warm_base + w.hb.warm_hits;
          cold_base = w.cold_base + w.hb.cold_starts;
        }
        else record seen { hb = hb })
    else seen

-- recordHeartbeat
unfoldable pub record_heartbeat : String → Heartbeat → ℕ → Bool → Registry → Registry
record_heartbeat id hb at reachable r = elim (get_worker id r.workers) [
  | none ↦ r
  | some w ↦ record r { workers = set_worker id (beat hb at reachable w) r.workers }
]

-- hitTotals
abbrev pub hit_totals : Worker → ℕ × ℕ
hit_totals w = (w.warm_base + w.hb.warm_hits, w.cold_base + w.hb.cold_starts)

-- fresh: reachable && !last.IsZero() && now.Sub(last) < r.staleAfter
unfoldable pub is_fresh : ℕ → ℕ → Worker → Bool
is_fresh stale_after now w =
    w.reachable && not (w.last_beat == 0) && ltb now (w.last_beat + stale_after)

-- placementKey
abbrev pub placement_key : Key → PlacementKey
placement_key k = (k.repo_id, if is_paired_frontend k then k.peer else k.hash)

-- The set write of EnsureRunning when no worker was found.
abbrev pub note_unserved : Key → Registry → Registry
note_unserved k r = record r { unserved_demand = put (placement_key k) tt r.unserved_demand }

-- DrainDemand
unfoldable pub drain_demand : Registry → ℕ × Registry
drain_demand r = (length r.unserved_demand, record r { unserved_demand = [] })

-- The running totals of the loops in Capacity, Stat, LoadRatio and LoadSample over fresh workers.
pub record Tally : Type 0 where
  pub workers : ℕ
  pub running : ℕ
  pub capacity : ℕ
  pub unbounded : Bool
  pub warm_hits : ℕ
  pub cold_starts : ℕ

abbrev pub zero_tally : Tally
zero_tally = record {
  workers = 0;
  running = 0;
  capacity = 0;
  unbounded = false;
  warm_hits = 0;
  cold_starts = 0;
}

abbrev pub count_worker : Worker → Tally → Tally
count_worker w t = record {
  workers = t.workers + 1;
  running = t.running + w.hb.running;
  capacity = if ltb 0 w.hb.max_warm then t.capacity + w.hb.max_warm else t.capacity;
  unbounded = if ltb 0 w.hb.max_warm then t.unbounded else true;
  warm_hits = t.warm_hits + (hit_totals w).0;
  cold_starts = t.cold_starts + (hit_totals w).1;
}

-- for _, w := range r.list() { …; if !r.fresh(last, reachable, now) { continue }; … }
unfoldable pub tally : ℕ → ℕ → List Worker → Tally → Tally
unfolding is_fresh
tally stale_after now [] t = t
tally stale_after now (w ∷ ws) t =
    tally stale_after now ws (if is_fresh stale_after now w then count_worker w t else t)

abbrev pub tally_of : ℕ → Registry → Tally
tally_of now r = tally r.stale_after now r.workers zero_tally

-- Capacity
pub capacity : ℕ → Registry → ℕ × ℕ
unfolding tally
capacity now r = let t = tally_of now r in (t.running, t.capacity)

pub record FleetStat : Type 0 where
  pub workers : ℕ
  pub running : ℕ
  pub capacity : ℕ
  pub warm_hits : ℕ
  pub cold_starts : ℕ

-- Stat
pub stat : ℕ → Registry → FleetStat
unfolding tally
stat now r =
    let t = tally_of now r in
    record {
      workers = t.workers;
      running = t.running;
      capacity = if t.unbounded then 0 else t.capacity;
      warm_hits = t.warm_hits;
      cold_starts = t.cold_starts;
    }

-- A quotient of counts, as numerator and denominator.
pub record Ratio : Type 0 where
  pub num : ℕ
  pub den : ℕ

-- LoadRatio
pub load_ratio : ℕ → Registry → Ratio
unfolding tally
load_ratio now r =
    let t = tally_of now r in
    if t.unbounded
    then record { num = 0; den = 1 }
    else if t.workers == 0 || t.capacity == 0
    then record { num = 1; den = 1 }
    else record { num = t.running; den = t.capacity }

-- LoadSample: the percentage and the number of fresh workers
pub load_sample : ℕ → Registry → Ratio × ℕ
unfolding tally
load_sample now r =
    let t = tally_of now r in
    if t.workers == 0
    then (record { num = 0; den = 1 }, 0)
    else if t.unbounded
    then (record { num = 0; den = 1 }, t.workers)
    else if t.capacity == 0
    then (record { num = 100; den = 1 }, t.workers)
    else (record { num = t.running * 100; den = t.capacity }, t.workers)

-- BusyByInstance
unfoldable pub busy_by_instance : ℕ → ℕ → List Worker → Table String Bool → Table String Bool
unfolding is_fresh
busy_by_instance stale_after now [] out = out
busy_by_instance stale_after now (w ∷ ws) out = busy_by_instance stale_after now ws (
    if not (str_eq w.instance_id "") && is_fresh stale_after now w
    then put w.instance_id (ltb 0 w.hb.running) out
    else out)

-- IdleWorkers
unfoldable pub idle_workers : ℕ → ℕ → List Worker → ℕ
unfolding is_fresh
idle_workers stale_after now [] = 0
idle_workers stale_after now (w ∷ ws) =
    let rest = idle_workers stale_after now ws in
    if str_eq w.instance_id ""
    then rest
    else if not (is_fresh stale_after now w) || w.hb.draining
    then rest
    else if w.hb.running == 0
    then rest + 1
    else rest
