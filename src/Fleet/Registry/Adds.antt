-- ===== src/Fleet/Registry/Adds.antt =====
-- Registration of workers: Add, Remove and recordHeartbeat as updates of one endpoint's entry.
use local_preview.Base.{
  ℕ, ◌≡◌, ◌⊎◌, inl, inr, refl, String, true, false, some, List, [], ◌∷◌, arith, str_eq, eq_iff,
  if◌then◌else◌, Option-cases, Bool-cases,
}
use local_preview.Fleet.Registry.{
  Registry, Worker, new_worker, get_worker, set_worker, add, is_fresh,
}

get-set :
    (id j : String) (v : Worker) (ws : List Worker)
    → v.id ≡ id
    → get_worker j (set_worker id v ws) ≡ (if str_eq id j then some v else get_worker j ws)
unfolding get_worker set_worker
get-set id j v [] e = ground (arith, eq_iff v.id j, eq_iff id j)
get-set id j v (w ∷ ws) e =
    ground (arith, eq_iff w.id id, eq_iff w.id j, eq_iff v.id j, eq_iff id j, get-set id j v ws e)

-- Add changes nothing for an endpoint that is known as this instance, and says so. Otherwise the
-- endpoint has a new state, which no instant and no staleness bound count as fresh, and every other
-- endpoint keeps its own.
pub add_lem :
    (id instance_id : String) (r : Registry)
    → ((add id instance_id r ≡ (false, r))
        × ((w : Worker) × (get_worker id r.workers ≡ some w) × (w.instance_id ≡ instance_id)))
      ⊎ ((add id instance_id r).0 ≡ true)
        × ((j : String)
            → get_worker j (add id instance_id r).1.workers
              ≡ (if str_eq id j then some (new_worker id instance_id) else get_worker j r.workers))
        × ((stale_after now : ℕ) → is_fresh stale_after now (new_worker id instance_id) ≡ false)
unfolding add is_fresh
add_lem id instance_id r = elim (Option-cases (get_worker id r.workers)) [
  | inl e ↦ inr (rw (e, add) refl, λ j. rw (e, add) (get-set id j _ r.workers refl), λ s n. refl)
  | inr (w, e) ↦ elim (Bool-cases (str_eq w.instance_id instance_id)) [
    | inl same ↦ inl (rw (e, same, add) refl, (w, e, (eq_iff _ _).0 same))
    | inr other ↦ inr (
      rw (e, other, add) refl,
      λ j. rw (e, other, add) (get-set id j _ r.workers refl),
      λ s n. refl,
    )
  ]
]
