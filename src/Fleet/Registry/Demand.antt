-- ===== src/Fleet/Registry/Demand.antt =====
-- Demand that no worker could serve: the set that EnsureRunning fills and DrainDemand counts.
use local_preview.Base.{
  ℕ, suc, ◌≡◌, refl, Bool, true, false, Option, none, some, List, [], ◌∷◌, arith, any, length,
  if◌then◌else◌, Table, find, put, find-put, pair_same, ℕ_comparable, String_comparable,
  pair_comparable,
}
use local_preview.Supervise.Keys.{Key}
use local_preview.Fleet.Registry.{
  Registry, PlacementKey, placement_key, note_unserved, drain_demand,
}

-- The registry after these calls were not served, the last call first.
abbrev pub unserved : List Key → Registry → Registry
unserved [] r = r
unserved (k ∷ ks) r = note_unserved k (unserved ks r)

-- How many different placements the calls ask for.
abbrev pub distinct_placements : List Key → ℕ
distinct_placements [] = 0
distinct_placements (k ∷ ks) =
    if any (λ j. pair_same (placement_key j) (placement_key k)) ks
    then distinct_placements ks
    else suc (distinct_placements ks)

abbrev is_some : Option (Unit {0}) → Bool
is_some none = false
is_some (some u) = true

length-put :
    (k : PlacementKey) (m : Table PlacementKey (Unit {0}))
    → length (put k tt m) ≡ (if is_some (find k m) then length m else suc (length m))
unfolding find put
length-put k [] = ground arith
length-put k ((j, u) ∷ m) = ground (arith, length-put k m)

find-unserved :
    (k : PlacementKey) (ks : List Key) (r : Registry)
    → r.unserved_demand ≡ []
    → is_some (find k (unserved ks r).unserved_demand) ≡ any (λ j. pair_same (placement_key j) k) ks
find-unserved k [] r e = rw e (unfold find in refl)
find-unserved k (j ∷ ks) r e =
    ground (
      arith,
      find-put (placement_key j) k tt (unserved ks r).unserved_demand,
      find-unserved k ks r e,
    )

-- From a drained registry, DrainDemand answers with the number of different placements that the
-- unserved calls asked for, however often each was asked, and leaves nothing behind.
pub drain_demand-unserved :
    (ks : List Key) (r : Registry)
    → r.unserved_demand ≡ []
    → ((drain_demand (unserved ks r)).0 ≡ distinct_placements ks)
      × ((drain_demand (unserved ks r)).1.unserved_demand ≡ [])
unfolding drain_demand
drain_demand-unserved ks r e = (counted ks, refl)
  where
    counted : (js : List Key) → length (unserved js r).unserved_demand ≡ distinct_placements js
    counted [] = rw e refl
    counted (j ∷ js) = ground (
      arith,
      length-put (placement_key j) (unserved js r).unserved_demand,
      find-unserved (placement_key j) js r e,
      counted js,
    )
