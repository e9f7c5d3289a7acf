-- ===== src/Fleet/Hits.antt =====
-- The fleet's hit totals across worker restarts: recordHeartbeat and hitTotals of
-- internal/fleet/fleet.go.
use local_preview.Base.{ℕ, ◌≤◌, Bool, List, [], ◌∷◌, arith}
use local_preview.Fleet.Registry.{Heartbeat, Worker, beat, hit_totals}

-- One polled heartbeat, with its arrival and whether the worker answered.
pub record Beat : Type 0 where
  pub hb : Heartbeat
  pub at : ℕ
  pub answered : Bool

abbrev pub beats : List Beat → Worker → Worker
beats [] w = w
beats (b ∷ bs) w = beats bs (beat b.hb b.at b.answered w)

beat_monotone :
    (hb : Heartbeat) (at : ℕ) (answered : Bool) (w : Worker)
    → ((hit_totals w).0 ≤ (hit_totals (beat hb at answered w)).0)
      × ((hit_totals w).1 ≤ (hit_totals (beat hb at answered w)).1)
unfolding beat
beat_monotone hb at answered w = ground arith

-- Through any heartbeats, also those after which the worker's counters start again from zero and
-- those that it did not answer, neither of the worker's totals ever falls.
pub beats_monotone :
    (bs : List Beat) (w : Worker)
    → ((hit_totals w).0 ≤ (hit_totals (beats bs w)).0)
      × ((hit_totals w).1 ≤ (hit_totals (beats bs w)).1)
beats_monotone [] w = ground arith
beats_monotone (b ∷ bs) w =
    ground
      (arith, beat_monotone b.hb b.at b.answered w, beats_monotone bs (beat b.hb b.at b.answered w))
