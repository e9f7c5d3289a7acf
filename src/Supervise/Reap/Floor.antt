-- ===== src/Supervise/Reap/Floor.antt =====
-- One pass of the reaper accounts for every candidate, and the warm floor stays.
use Prim.Native.Nat.{min}
use local_preview.Base.{
  ℕ, zero, suc, ◌+◌, ◌-◌, ◌≡◌, Bool, List, [], ◌∷◌, ◌++◌, arith, length, take, drop, rev, count,
  count-append, count-rev, count-take-drop,
}
use local_preview.Supervise.Keys.{Key}
use local_preview.Supervise.Reap.{
  Cand, Policy, Sweep, idle_pass, prune_from_end, prune_pass, reap_sorted,
}

module _ (is_paired : Key → Bool) (now : ℕ) (p : Cand → Bool) where
  count-idle_pass :
      (pol : Policy) (cs : List Cand)
      → count p (idle_pass is_paired pol now cs).stopped
          + count p (idle_pass is_paired pol now cs).alive
        ≡ count p cs
  unfolding idle_pass
  count-idle_pass pol [] = omega arith
  count-idle_pass pol (c ∷ cs) = ground (arith, count-idle_pass pol cs)

  count-prune :
      (excess : ℕ) (cs : List Cand)
      → count p (prune_from_end is_paired now excess cs).stopped
          + count p (prune_from_end is_paired now excess cs).alive
        ≡ count p cs
  unfolding prune_from_end
  count-prune zero cs = omega arith
  count-prune (suc excess) [] = omega arith
  count-prune (suc excess) (c ∷ cs) =
      ground (arith, count-prune (suc excess) cs, count-prune excess cs)

  count-prune_pass :
      (pol : Policy) (protected others : List Cand)
      → count p (prune_pass is_paired pol now protected others).stopped
          + count p (prune_pass is_paired pol now protected others).alive
        ≡ count p others
  count-prune_pass pol protected others = ground (
    arith,
    count-rev p others,
    count-prune (length protected + length others - pol.max_warm) (rev others),
  )

  count-joined :
      (floor : ℕ) (cands : List Cand) (i pr : Sweep)
      → count p i.stopped + count p i.alive ≡ count p (drop floor cands)
      → count p pr.stopped + count p pr.alive ≡ count p i.alive
      → count p (i.stopped ++ pr.stopped) + count p (take floor cands ++ rev pr.alive)
        ≡ count p cands
  count-joined floor cands i pr h g = omega (
    arith,
    count-append p i.stopped pr.stopped,
    count-append p (take floor cands) (rev pr.alive),
    count-rev p pr.alive,
    count-take-drop p floor cands,
  )

  -- Whatever the order of the candidates, a pass stops or keeps each of them exactly as often as it
  -- was there: none is lost, none is made up and none is both stopped and kept.
  pub count-reap_sorted :
      (pol : Policy) (cands : List Cand)
      → count p (reap_sorted is_paired pol now cands).stopped
          + count p (reap_sorted is_paired pol now cands).alive
        ≡ count p cands
  unfolding reap_sorted
  count-reap_sorted pol cands =
      let floor = min pol.min_warm (length cands) in
      let i = idle_pass is_paired pol now (drop floor cands) in
      count-joined floor cands i (prune_pass is_paired pol now (take floor cands) i.alive)
        (count-idle_pass pol (drop floor cands)) (count-prune_pass pol (take floor cands) i.alive)
