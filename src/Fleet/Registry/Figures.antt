-- ===== src/Fleet/Registry/Figures.antt =====
-- The figures of the fleet as sums over the workers that are fresh.
use local_preview.Base.{
  ℕ, ◌+◌, ◌≡◌, Bool, ◌||◌, List, [], ◌∷◌, arith, ◌==◌, if◌then◌else◌, keep, any, length, Bool-cases,
  inl, inr,
}
use local_preview.Fleet.Registry.{
  Worker, Registry, Tally, zero_tally, count_worker, is_fresh, hit_totals, tally, stat,
}

abbrev pub sum : (Worker → ℕ) → List Worker → ℕ
sum f [] = 0
sum f (w ∷ ws) = f w + sum f ws

abbrev pub is_uncapped : Worker → Bool
is_uncapped w = w.hb.max_warm == 0

-- The tally has gone on from `t` over these workers.
record Adds (ws : List Worker) (t after : Tally) : Type 0 where
  workers : after.workers ≡ t.workers + length ws
  running : after.running ≡ t.running + sum (λ w. w.hb.running) ws
  capacity : after.capacity ≡ t.capacity + sum (λ w. w.hb.max_warm) ws
  unbounded : after.unbounded ≡ (t.unbounded || any is_uncapped ws)
  warm_hits : after.warm_hits ≡ t.warm_hits + sum (λ w. (hit_totals w).0) ws
  cold_starts : after.cold_starts ≡ t.cold_starts + sum (λ w. (hit_totals w).1) ws

Adds-count :
    (w : Worker) (ws : List Worker) (t after : Tally)
    → Adds ws (count_worker w t) after
    → Adds (w ∷ ws) t after
Adds-count w ws t after a = record {
  workers = ground (arith, a.workers);
  running = ground (arith, a.running);
  capacity = ground (arith, a.capacity);
  unbounded = ground (arith, a.unbounded);
  warm_hits = ground (arith, a.warm_hits);
  cold_starts = ground (arith, a.cold_starts);
}

tally-Adds :
    (stale_after now : ℕ) (ws : List Worker) (t : Tally)
    → Adds (keep (is_fresh stale_after now) ws) t (tally stale_after now ws t)
unfolding tally
tally-Adds stale_after now [] t = record {
  workers = omega arith;
  running = omega arith;
  capacity = omega arith;
  unbounded = ground arith;
  warm_hits = omega arith;
  cold_starts = omega arith;
}
tally-Adds stale_after now (w ∷ ws) t = elim (Bool-cases (is_fresh stale_after now w)) [
  | inl e ↦ rw e (Adds-count w _ t _ (tally-Adds stale_after now ws (count_worker w t)))
  | inr e ↦ rw e (tally-Adds stale_after now ws t)
]

-- The fleet's statistics are sums over the workers that are fresh, and the capacity is the sum of
-- their caps, or 0 when one of them has no cap.
pub stat_lem :
    (now : ℕ) (r : Registry)
    → let ws = keep (is_fresh r.stale_after now) r.workers in
      (stat now r).workers ≡ length ws
      × (stat now r).running ≡ sum (λ w. w.hb.running) ws
      × (stat now r).capacity ≡ (if any is_uncapped ws then 0 else sum (λ w. w.hb.max_warm) ws)
      × (stat now r).warm_hits ≡ sum (λ w. (hit_totals w).0) ws
      × (stat now r).cold_starts ≡ sum (λ w. (hit_totals w).1) ws
unfolding stat
stat_lem now r =
    let a = tally-Adds r.stale_after now r.workers zero_tally in
    (
      omega (arith, a.workers),
      omega (arith, a.running),
      ground (arith, a.unbounded, a.capacity),
      omega (arith, a.warm_hits),
      omega (arith, a.cold_starts),
    )
