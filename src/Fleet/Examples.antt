-- ===== src/Fleet/Examples.antt =====
-- A fleet of three workers: one full, one with room, one that has not answered.
use local_preview.Base.{
  ℕ, ◌≤◌, ◌≡◌, ◌⊎◌, refl, String, true, none, some, List, [], ◌∷◌, str_eq, if◌then◌else◌,
}
use local_preview.Supervise.Keys.{Key, backend_key}
use local_preview.Fleet.Registry.{
  Worker, Registry, PlacementKey, zero_heartbeat, new_worker, new_registry, remove, is_fresh,
  hit_totals,
}
use local_preview.Fleet.Hits.{Beat, beats, beats_monotone}
use local_preview.Fleet.Place.{place, top_weight_from, take_heavier, fallback}
use local_preview.Fleet.Place.Choice.{IsRightPlace, place_lem}
use local_preview.Fleet.Place.Stable.{place-remove}

abbrev worker : String → ℕ → Worker
worker id running = record (new_worker id "i-1") {
  hb = record zero_heartbeat { running = running; max_warm = 4; warm_hits = 7 };
  last_beat = 90;
  reachable = true;
}

abbrev fleet : Registry
fleet = record (new_registry 60) {
  workers = worker "w1" 4 ∷ worker "w2" 1 ∷ new_worker "w3" "i-3" ∷ [];
}

abbrev weigh : String → PlacementKey → ℕ
weigh id key = if str_eq id "w1" then 9 else 5

abbrev app : Key
app = backend_key 1 "abc"

app_placed : place weigh app 100 fleet ≡ some (worker "w2" 1)
unfolding place top_weight_from take_heavier is_fresh
app_placed = refl

place_lem_example :
    ((place weigh app 100 fleet ≡ none) × (fallback 60 100 fleet.workers ≡ []))
    ⊎ ((w : Worker) × (place weigh app 100 fleet ≡ some w) × IsRightPlace weigh app 100 fleet w)
place_lem_example = place_lem weigh app 100 fleet

place-remove_example : place weigh app 100 (remove "w1" fleet) ≡ some (worker "w2" 1)
place-remove_example = place-remove weigh app 100 "w1" fleet (worker "w2" 1) app_placed refl refl

abbrev reboot : List Beat
reboot = record { hb = zero_heartbeat; at = 95; answered = true } ∷ []

beats_monotone_example :
    ((hit_totals (worker "w2" 1)).0 ≤ (hit_totals (beats reboot (worker "w2" 1))).0)
    × ((hit_totals (worker "w2" 1)).1 ≤ (hit_totals (beats reboot (worker "w2" 1))).1)
beats_monotone_example = beats_monotone reboot (worker "w2" 1)
