-- ===== src/Supervise/Reap/Prune.antt =====
-- How far a pass of the reaper goes towards the warm target.
use Prim.Native.Nat.{min}
use local_preview.Base.{
  ℕ, zero, suc, ◌+◌, ◌-◌, ◌≤◌, ◌≡◌, ◌⊎◌, inl, inr, refl, Bool, true, false, ◌||◌, List, [], ◌∷◌,
  ◌++◌, arith, ◌==◌, leb, length, take, drop, rev, length-append, length-rev, All, All-rev,
  Bool-cases,
}
use local_preview.Supervise.Keys.{Key}
use local_preview.Supervise.Reap.{
  Cand, Policy, Sweep, is_active, idle_pass, prune_from_end, prune_pass, reap_sorted,
}

module _ (is_paired : Key → Bool) (now : ℕ) where
  -- Pruning never takes it: the backend of a running frontend, or touched within the window.
  abbrev pub IsExempt : Cand → Type 0
  IsExempt c = (is_paired c.key || is_active now c) ≡ true

  length-prune :
      (excess : ℕ) (cs : List Cand)
      → length (prune_from_end is_paired now excess cs).stopped
          + length (prune_from_end is_paired now excess cs).alive
        ≡ length cs
  unfolding prune_from_end
  length-prune zero cs = omega arith
  length-prune (suc excess) [] = omega arith
  length-prune (suc excess) (c ∷ cs) =
      ground (arith, length-prune (suc excess) cs, length-prune excess cs)

  length-prune-le :
      (excess : ℕ) (cs : List Cand)
      → length (prune_from_end is_paired now excess cs).stopped ≤ excess
  unfolding prune_from_end
  length-prune-le zero cs = omega arith
  length-prune-le (suc excess) [] = omega arith
  length-prune-le (suc excess) (c ∷ cs) =
      ground (arith, length-prune-le (suc excess) cs, length-prune-le excess cs)

  prune_exhausts :
      (excess : ℕ) (cs : List Cand)
      → (length (prune_from_end is_paired now excess cs).stopped ≡ excess)
        ⊎ All IsExempt (prune_from_end is_paired now excess cs).alive
  unfolding prune_from_end
  prune_exhausts zero cs = inl refl
  prune_exhausts (suc excess) [] = inr tt
  prune_exhausts (suc excess) (c ∷ cs) = elim (Bool-cases (is_paired c.key || is_active now c)) [
    | inl e ↦ rw e (elim (prune_exhausts (suc excess) cs) [ inl n ↦ inl n | inr a ↦ inr (e, a) ])
    | inr e ↦ rw e (elim (prune_exhausts excess cs) [ inl n ↦ inl (omega arith) | inr a ↦ inr a ])
  ]

  over_target :
      (pol : Policy) (protected others : List Cand)
      → 1 ≤ pol.max_warm
      → leb (length protected + length others) pol.max_warm ≡ false
      → (pol.max_warm == 0 || leb (length protected + length others) pol.max_warm) ≡ false
  over_target pol protected others h e = ground arith

  -- After the pruning: the target is met exactly, or was met before, or only exempt processes are
  -- left beyond the floor.
  pub prune_pass_target :
      (pol : Policy) (protected others : List Cand)
      → 1 ≤ pol.max_warm
      → let after = prune_pass is_paired pol now protected others in
        (length protected + length after.alive ≤ pol.max_warm) ⊎ All IsExempt after.alive
  prune_pass_target pol protected others h =
      elim (Bool-cases (leb (length protected + length others) pol.max_warm)) [
        | inl e ↦ inl (ground (arith, length-rev others))
        | inr e ↦
            rw (over_target pol protected others h e) (over (prune_exhausts excess (rev others)))
      ]
    where
      excess : ℕ
      excess = length protected + length others - pol.max_warm

      over :
          (length (prune_from_end is_paired now excess (rev others)).stopped ≡ excess)
            ⊎ All IsExempt (prune_from_end is_paired now excess (rev others)).alive
          → (length protected + length (prune_from_end is_paired now excess (rev others)).alive
              ≤ pol.max_warm)
            ⊎ All IsExempt (prune_from_end is_paired now excess (rev others)).alive
      over (inl n) = inl (omega (arith, length-prune excess (rev others), length-rev others))
      over (inr a) = inr a

  pub prune_pass_stops_at_target :
      (pol : Policy) (protected others : List Cand)
      → let after = prune_pass is_paired pol now protected others in
        (after.stopped ≡ []) ⊎ (pol.max_warm ≤ length protected + length after.alive)
  prune_pass_stops_at_target pol protected others =
      elim (Bool-cases (pol.max_warm == 0 || leb (length protected + length others) pol.max_warm)) [
        | inl e ↦ inl (rw e refl)
        | inr e ↦ inr (
            rw e (
              ground (
                arith,
                length-prune (length protected + length others - pol.max_warm) (rev others),
                length-prune-le (length protected + length others - pol.max_warm) (rev others),
                length-rev others,
              )))
      ]

module _ (is_paired : Key → Bool) (pol : Policy) (now : ℕ) (cands : List Cand) where
  -- With a warm target set, what a pass leaves alive is the warm floor followed by other processes,
  -- and either all of it together is within the target, or every one of the others is exempt: the
  -- backend of a running frontend, or touched within the active window.
  pub reap_sorted_target :
      1 ≤ pol.max_warm
      → (others : List Cand) × ((reap_sorted is_paired pol now cands).alive
          ≡ take (min pol.min_warm (length cands)) cands ++ others)
        × ((length (reap_sorted is_paired pol now cands).alive ≤ pol.max_warm)
            ⊎ All (IsExempt is_paired now) others)
  unfolding reap_sorted
  reap_sorted_target h = (
    rev after.alive,
    refl,
    elim (prune_pass_target is_paired now pol protected idle.alive h) [
      | inl n ↦
          inl (omega (arith, length-append protected (rev after.alive), length-rev after.alive))
      | inr a ↦ inr (All-rev (IsExempt is_paired now) after.alive a)
    ],
  )
    where
      protected : List Cand
      protected = take (min pol.min_warm (length cands)) cands

      idle : Sweep
      idle = idle_pass is_paired pol now (drop (min pol.min_warm (length cands)) cands)

      after : Sweep
      after = prune_pass is_paired pol now protected idle.alive
