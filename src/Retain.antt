-- ===== src/Retain.antt =====
-- internal/retain/retain.go: the retention policy and its sweep. The persisted policy, the clock and
-- the failures of single updates are arguments. SweepTmp, which collects staging leftovers of the
-- store, is not part of the model.
pub mod Evicts
pub mod Limits
pub mod Newest
pub mod Reclaims
mod Examples
use local_preview.Base.{
  ℕ, suc, ◌+◌, String, Bool, true, false, ◌&&◌, ◌||◌, not, Option, none, some, List, [], ◌∷◌, ◌++◌,
  ltb, if◌then◌else◌, Table, find, put, ℕ_comparable, ℤ, pos, ltb_ℤ, leb_ℤ, pos_part, ◌-◌, ◌*◌,
}
use local_preview.Db.Deploys.{
  DeployStatus, queued, building, DeployRow, Database, Result, ok, err, DbError, not_found,
  is_ready, is_evicted, is_unfinished, set_deploy_evicted, is_aliased,
}
use local_preview.Supervise.Collect.{GcAction, gc_deploy}

pub record Policy : Type 0 where
  pub max_deploys_per_repo : ℤ
  pub max_age_days : ℤ

-- Enabled
abbrev pub enabled : Policy → Bool
enabled p = ltb_ℤ (pos 0) p.max_deploys_per_repo || ltb_ℤ (pos 0) p.max_age_days

pub data PolicyError : Type 0 where
  negative_count negative_age : PolicyError

-- Validate
pub validate : Policy → Option PolicyError
validate p =
    if ltb_ℤ p.max_deploys_per_repo (pos 0)
    then some negative_count
    else if ltb_ℤ p.max_age_days (pos 0)
    then some negative_age
    else none

-- What a sweep asks of the world: time.Parse, the clock, which updates fail, and which frontends have
-- a process. Times are nanoseconds of UTC.
pub record World : Type 0 where
  pub parse_time : String → Option ℕ
  pub now : ℕ
  pub update_fails : ℕ → Bool
  pub has_frontend_artifact : ℕ → String → Bool

-- createdBefore
abbrev pub created_before : Option ℕ → ℕ → Bool
created_before none cutoff = false
created_before (some t) cutoff = ltb t cutoff

abbrev pub nanos_per_day : ℕ
nanos_per_day = 86400000000000

-- s.now().AddDate(0, 0, -policy.MaxAgeDays), where a day is 24 hours
unfoldable pub cutoff : Policy → World → ℕ
cutoff p w = w.now - pos_part p.max_age_days * nanos_per_day

-- What Sweep keeps while it goes through the rows
pub record Sweep : Type 0 where
  pub db : Database
  pub kept : Table ℕ ℕ
  pub newest_ready : Table ℕ (Unit {0})
  pub evicted : List DeployRow
  pub actions : List GcAction

abbrev pub start_sweep : Database → Sweep
start_sweep db = record { db = db; kept = []; newest_ready = []; evicted = []; actions = [] }

-- kept[repo], 0 for a repo that is not in the map
unfoldable pub kept_of : ℕ → Sweep → ℕ
kept_of repo_id s = elim (find repo_id s.kept) [ none ↦ 0 | some n ↦ n ]

-- newestReady[repo]
unfoldable pub seen_ready : ℕ → Table ℕ (Unit {0}) → Bool
seen_ready repo_id newest = elim (find repo_id newest) [ none ↦ false | some u ↦ true ]

-- row.Status == ready && !newestReady[row.RepoID]
unfoldable pub is_newest_ready : DeployRow → Sweep → Bool
is_newest_ready row s = is_ready row.status && not (seen_ready row.repo_id s.newest_ready)

unfoldable pub mark_ready : DeployRow → Sweep → Sweep
mark_ready row s =
    if is_newest_ready row s
    then record s { newest_ready = put row.repo_id tt s.newest_ready }
    else s

unfoldable pub is_protected : Table (ℕ × String) ℕ → DeployRow → Sweep → Bool
is_protected aliases row s =
    is_unfinished row.status || is_aliased row.id aliases || is_newest_ready row s

unfoldable pub over_count : Policy → DeployRow → Sweep → Bool
over_count p row s =
    ltb_ℤ (pos 0) p.max_deploys_per_repo
    && leb_ℤ p.max_deploys_per_repo (pos (kept_of row.repo_id s))

unfoldable pub too_old : Policy → World → DeployRow → Bool
too_old p w row =
    ltb_ℤ (pos 0) p.max_age_days && created_before (w.parse_time row.created_at) (cutoff p w)

-- kept[row.RepoID]++
abbrev pub retain : DeployRow → Sweep → Sweep
retain row s = record s { kept = put row.repo_id (suc (kept_of row.repo_id s)) s.kept }

-- SetDeployEvicted, then GCDeploy and the report; a failed update skips both.
unfoldable pub evict_row : World → DeployRow → Sweep → Sweep
evict_row w row s =
    elim (if w.update_fails row.id then err not_found else set_deploy_evicted row.id s.db) [
      | err e ↦ s
      | ok db ↦ record s {
        db = db;
        evicted = s.evicted ++ row ∷ [];
        actions = s.actions ++ gc_deploy w.has_frontend_artifact row db;
      }
    ]

-- The body of the loop of Sweep
unfoldable pub consider : Policy → World → Table (ℕ × String) ℕ → DeployRow → Sweep → Sweep
unfolding evict_row
consider p w aliases row s =
    let evict = evict_row w row (mark_ready row s) in
    let keep_row = retain row (mark_ready row s) in
    if is_evicted row.status
    then s
    else if is_protected aliases row s
    then keep_row
    else if over_count p row s || too_old p w row
    then evict
    else keep_row

unfoldable pub sweep_rows : Policy → World → Table (ℕ × String) ℕ → List DeployRow → Sweep → Sweep
unfolding consider
sweep_rows p w aliases [] s = s
sweep_rows p w aliases (row ∷ rows) s = sweep_rows p w aliases rows (consider p w aliases row s)

-- Sweep
unfoldable pub sweep : Policy → World → Database → Sweep
unfolding sweep_rows
sweep p w db =
    if enabled p then sweep_rows p w db.aliases db.deploys (start_sweep db) else start_sweep db
