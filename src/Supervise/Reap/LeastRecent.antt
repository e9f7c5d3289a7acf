-- ===== src/Supervise/Reap/LeastRecent.antt =====
-- A whole pass of the reaper: what is stopped for the warm target is least recently used.
use Prim.Native.Nat.{min}
use local_preview.Base.{
  ℕ, ◌+◌, ◌≤◌, ◌≡◌, ◌⊎◌, inl, inr, Bool, true, ◌||◌, List, [], ◌∷◌, ◌++◌, arith, ◌==◌, leb, length,
  take, drop, rev, All, All-append, All-map, All-rev, Bool-cases, Table,
}
use local_preview.Supervise.Keys.{Key}
use local_preview.Supervise.Manager.{Process}
use local_preview.Supervise.Reap.{
  Cand, Policy, Sweep, candidates, paired, sort_cands, timed_out, idle_pass, prune_pass,
  reap_sorted, reap,
}
use local_preview.Supervise.Reap.Order.{
  Descending, YieldsTo, sort-Descending, rev-Ascending, drop-Descending, floor_above,
  idle-All-alive, idle-Descending, prune-All, prune_oldest,
}

module _ (is_paired : Key → Bool) (pol : Policy) (now : ℕ) where
  idle_stopped :
      (cs : List Cand)
      → All (λ c. timed_out pol now c ≡ true) (idle_pass is_paired pol now cs).stopped
  unfolding idle_pass
  idle_stopped [] = tt
  idle_stopped (c ∷ cs) = ground (arith, idle_stopped cs)

  prune_pass_oldest :
      (protected others : List Cand)
      → Descending others
      → let after = prune_pass is_paired pol now protected others in
        All (λ s. All (YieldsTo is_paired now s) after.alive) after.stopped
  prune_pass_oldest protected others h =
      elim (Bool-cases (pol.max_warm == 0 || leb (length protected + length others) pol.max_warm)) [
        | inl e ↦ rw e tt
        | inr e ↦ rw e (prune_oldest is_paired now _ (rev others) (rev-Ascending others h))
      ]

  prune_pass-All :
      (P : Cand → Type 0) (protected others : List Cand)
      → All P others
      → All P (prune_pass is_paired pol now protected others).stopped
  prune_pass-All P protected others h =
      elim (Bool-cases (pol.max_warm == 0 || leb (length protected + length others) pol.max_warm)) [
        | inl e ↦ rw e tt
        | inr e ↦ rw e (prune-All is_paired now P _ (rev others) (All-rev P others h)).0
      ]

  -- A stopped process was past its timeout, or yields to all that stay.
  abbrev pub IsJustified : List Cand → Cand → Type 0
  IsJustified alive s = (timed_out pol now s ≡ true) ⊎ All (YieldsTo is_paired now s) alive

  justify :
      (floor survivors : List Cand) (stopped : List Cand)
      → All (λ s. All (λ d. s.touch ≤ d.touch) floor) stopped
      → All (λ s. All (YieldsTo is_paired now s) survivors) stopped
      → All (IsJustified (floor ++ rev survivors)) stopped
  justify floor survivors [] a b = tt
  justify floor survivors (s ∷ ss) a b = (
    inr (
        All-append (YieldsTo is_paired now s) floor (rev survivors)
          (All-map _ (YieldsTo is_paired now s) (λ d k. inr k) floor a.0)
          (All-rev (YieldsTo is_paired now s) survivors b.0)),
    justify floor survivors ss a.1 b.1,
  )

  reap_sorted-IsJustified :
      (cands : List Cand)
      → Descending cands
      → let r = reap_sorted is_paired pol now cands in All (IsJustified r.alive) r.stopped
  unfolding reap_sorted
  reap_sorted-IsJustified cands h =
      All-append (IsJustified alive) idle.stopped after.stopped
        (All-map _ (IsJustified alive) (λ s e. inl e) idle.stopped
          (idle_stopped (drop floor cands)))
        (justify protected after.alive after.stopped
          (prune_pass-All (λ s. All (λ d. s.touch ≤ d.touch) protected) protected idle.alive
            (idle-All-alive is_paired now _ pol (drop floor cands) (floor_above floor cands h)))
          (prune_pass_oldest protected idle.alive
            (idle-Descending is_paired now pol (drop floor cands) (drop-Descending floor cands h))))
    where
      floor : ℕ
      floor = min pol.min_warm (length cands)

      protected : List Cand
      protected = take floor cands

      idle : Sweep
      idle = idle_pass is_paired pol now (drop floor cands)

      after : Sweep
      after = prune_pass is_paired pol now protected idle.alive

      alive : List Cand
      alive = protected ++ rev after.alive

-- Each process that a pass stops was past its idle timeout, or every process that the pass leaves
-- alive was touched at least as recently, is the backend of a running frontend, or was touched
-- within the active window.
pub reap_least_recent :
    (pol : Policy) (now : ℕ) (procs : Table Key Process)
    → let r = reap pol now procs in
      All (IsJustified (paired (candidates procs)) pol now r.alive) r.stopped
unfolding reap
reap_least_recent pol now procs =
    reap_sorted-IsJustified (paired (candidates procs)) pol now (sort_cands (candidates procs))
      (sort-Descending (candidates procs))
