-- ===== src/Supervise/Reap/Idle.antt =====
-- Which processes a pass of the reaper may stop.
use Prim.Native.Nat.{min}
use local_preview.Base.{
  ℕ, zero, suc, ◌+◌, ◌-◌, ◌≤◌, ◌≡◌, ◌⊎◌, Bool, true, false, List, [], ◌∷◌, arith, length, take,
  drop, rev, All, All-append,
}
use local_preview.Supervise.Keys.{Key}
use local_preview.Supervise.Reap.{
  Cand, Policy, timed_out, is_active, idle_pass, prune_from_end, prune_pass, reap_sorted,
}

module _ (is_paired : Key → Bool) (pol : Policy) (now : ℕ) where
  -- Not the backend of a running frontend, and idle for its timeout, or outside the active window
  -- while a target is set.
  abbrev pub MayStop : Cand → Type 0
  MayStop c =
      (is_paired c.key ≡ false)
      × ((timed_out pol now c ≡ true) ⊎ ((is_active now c ≡ false) × (1 ≤ pol.max_warm)))

  idle_pass-MayStop : (cs : List Cand) → All MayStop (idle_pass is_paired pol now cs).stopped
  unfolding idle_pass
  idle_pass-MayStop [] = tt
  idle_pass-MayStop (c ∷ cs) = ground (arith, idle_pass-MayStop cs)

  prune-MayStop :
      (excess : ℕ) (cs : List Cand)
      → 1 ≤ pol.max_warm
      → All MayStop (prune_from_end is_paired now excess cs).stopped
  unfolding prune_from_end
  prune-MayStop zero cs h = tt
  prune-MayStop (suc excess) [] h = tt
  prune-MayStop (suc excess) (c ∷ cs) h =
      ground (arith, prune-MayStop (suc excess) cs h, prune-MayStop excess cs h)

  prune_pass-MayStop :
      (protected others : List Cand)
      → All MayStop (prune_pass is_paired pol now protected others).stopped
  prune_pass-MayStop protected others =
      ground (arith, prune-MayStop (length protected + length others - pol.max_warm) (rev others))

  -- Whatever the order of the candidates, a pass stops a process only if it is not the backend of a
  -- running frontend, and either its idle timeout has passed or, with a warm target set, it was not
  -- touched within the active window.
  pub reap_sorted-MayStop :
      (cands : List Cand) → All MayStop (reap_sorted is_paired pol now cands).stopped
  unfolding reap_sorted
  reap_sorted-MayStop cands =
      let floor = min pol.min_warm (length cands) in
      All-append MayStop _ _ (idle_pass-MayStop (drop floor cands)) (
        prune_pass-MayStop (take floor cands)
          (idle_pass is_paired pol now (drop floor cands)).alive)
