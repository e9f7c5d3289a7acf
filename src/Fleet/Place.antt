-- ===== src/Fleet/Place.antt =====
-- Placement of a process on a worker: place, topWeight and leastLoaded of internal/fleet/fleet.go.
-- The rendezvous weight hrw is an argument: it is a hash of the standard library (FNV-1a) of the
-- worker's id and the placement key. Loads are compared as fractions, by cross-multiplication; the
-- source divides in float64, which tells fractions of counts below 2^26 apart.
pub mod Choice
pub mod Stable
use local_preview.Base.{
  ℕ, ◌+◌, ◌*◌, String, Bool, true, false, ◌&&◌, ◌||◌, not, Option, none, some, List, [], ◌∷◌, ◌==◌,
  ltb, if◌then◌else◌, keep,
}
use local_preview.Supervise.Keys.{Key}
use local_preview.Fleet.Registry.{Worker, Registry, PlacementKey, placement_key, is_fresh}

-- !fresh || hb.Draining, negated
abbrev pub is_placeable : ℕ → ℕ → Worker → Bool
is_placeable stale_after now w = is_fresh stale_after now w && not w.hb.draining

-- hb.MaxWarm <= 0 || hb.Running < hb.MaxWarm
abbrev pub has_room : Worker → Bool
has_room w = w.hb.max_warm == 0 || ltb w.hb.running w.hb.max_warm

module _ (hrw : String → PlacementKey → ℕ) (key : PlacementKey) where
  -- best == nil || s > bestScore
  unfoldable pub take_heavier : Option Worker → Worker → Option Worker
  take_heavier none w = some w
  take_heavier (some b) w = if ltb (hrw b.id key) (hrw w.id key) then some w else some b

  unfoldable pub top_weight_from : Option Worker → List Worker → Option Worker
  unfolding take_heavier
  top_weight_from best [] = best
  top_weight_from best (w ∷ ws) = top_weight_from (take_heavier best w) ws

  -- topWeight
  abbrev pub top_weight : List Worker → Option Worker
  top_weight ws = top_weight_from none ws

  -- load < bestLoad, of a load 0.0 when there is no cap
  abbrev pub load_below : Worker → Worker → Bool
  load_below w b =
      if w.hb.max_warm == 0
      then ltb 0 b.hb.max_warm && ltb 0 b.hb.running
      else if b.hb.max_warm == 0
      then false
      else ltb (w.hb.running * b.hb.max_warm) (b.hb.running * w.hb.max_warm)

  -- load < bestLoad || (load == bestLoad && s > bestScore)
  unfoldable pub take_lighter : Option Worker → Worker → Option Worker
  take_lighter none w = some w
  take_lighter (some b) w =
      if load_below w b || not (load_below b w) && ltb (hrw b.id key) (hrw w.id key)
      then some w
      else some b

  unfoldable pub least_loaded_from : Option Worker → List Worker → Option Worker
  unfolding take_lighter
  least_loaded_from best [] = best
  least_loaded_from best (w ∷ ws) = least_loaded_from (take_lighter best w) ws

  -- leastLoaded
  abbrev pub least_loaded : List Worker → Option Worker
  least_loaded ws = least_loaded_from none ws

-- fallback
abbrev pub fallback : ℕ → ℕ → List Worker → List Worker
fallback stale_after now = keep (is_placeable stale_after now)

-- eligible
abbrev pub eligible : ℕ → ℕ → List Worker → List Worker
eligible stale_after now = keep (λ w. is_placeable stale_after now w && has_room w)

abbrev pub place_among :
    (String → PlacementKey → ℕ) → PlacementKey → List Worker → List Worker → Option Worker
place_among hrw key [] others = least_loaded hrw key others
place_among hrw key (w ∷ ws) others = top_weight hrw key (w ∷ ws)

-- place
unfoldable pub place : (String → PlacementKey → ℕ) → Key → ℕ → Registry → Option Worker
unfolding top_weight_from least_loaded_from
place hrw k now r =
    place_among hrw (placement_key k) (eligible r.stale_after now r.workers)
      (fallback r.stale_after now r.workers)
