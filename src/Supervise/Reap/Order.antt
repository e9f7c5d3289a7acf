-- ===== src/Supervise/Reap/Order.antt =====
-- The reaper sorts by recency, so what it prunes beyond the target is least recently used.
use local_preview.Base.{
  ℕ, zero, suc, ◌≤◌, ◌≡◌, ◌⊎◌, inl, inr, Bool, true, false, ◌||◌, List, [], ◌∷◌, ◌++◌, arith, take,
  drop, rev, All, All-append, All-map, All-rev, Bool-cases,
}
use local_preview.Supervise.Keys.{Key}
use local_preview.Supervise.Reap.{
  Cand, Policy, sorts_before, insert_cand, sort_cands, is_active, idle_pass, prune_from_end,
}
use local_preview.Supervise.Reap.Prune.{IsExempt}

-- Most recent first.
abbrev pub Descending : List Cand → Type 0
Descending [] = Unit
Descending (c ∷ cs) = All (λ d. d.touch ≤ c.touch) cs × Descending cs

abbrev pub Ascending : List Cand → Type 0
Ascending [] = Unit
Ascending (c ∷ cs) = All (λ d. c.touch ≤ d.touch) cs × Ascending cs

module _ (P : Cand → Type 0) where
  All-insert : (c : Cand) (cs : List Cand) → P c → All P cs → All P (insert_cand c cs)
  unfolding insert_cand
  All-insert c [] p h = (p, tt)
  All-insert c (d ∷ ds) p h = elim (Bool-cases (sorts_before d c)) [
    | inl e ↦ rw e (h.0, All-insert c ds p h.1)
    | inr e ↦ rw e (p, h)
  ]

  All-take : (n : ℕ) (cs : List Cand) → All P cs → All P (take n cs)
  All-take zero cs h = tt
  All-take (suc n) [] h = tt
  All-take (suc n) (c ∷ cs) h = (h.0, All-take n cs h.1)

  All-drop : (n : ℕ) (cs : List Cand) → All P cs → All P (drop n cs)
  All-drop zero cs h = h
  All-drop (suc n) [] h = tt
  All-drop (suc n) (c ∷ cs) h = All-drop n cs h.1

below_of : (c d : Cand) → sorts_before d c ≡ false → d.touch ≤ c.touch
below_of c d h = ground arith

above_of : (c d : Cand) → sorts_before d c ≡ true → c.touch ≤ d.touch
above_of c d h = ground arith

insert-Descending : (c : Cand) (cs : List Cand) → Descending cs → Descending (insert_cand c cs)
unfolding insert_cand
insert-Descending c [] h = (tt, tt)
insert-Descending c (d ∷ ds) h = elim (Bool-cases (sorts_before d c)) [
  | inl e ↦
      rw e
        (All-insert (λ x. x.touch ≤ d.touch) c ds (above_of c d e) h.0, insert-Descending c ds h.1)
  | inr e ↦ rw e (
    (
      below_of c d e,
      All-map (λ x. x.touch ≤ d.touch) (λ x. x.touch ≤ c.touch)
          (λ x k. omega (arith, below_of c d e)) ds h.0,
    ),
    h,
  )
]

pub sort-Descending : (cs : List Cand) → Descending (sort_cands cs)
unfolding sort_cands
sort-Descending [] = tt
sort-Descending (c ∷ cs) = insert-Descending c (sort_cands cs) (sort-Descending cs)

pub rev-Ascending : (cs : List Cand) → Descending cs → Ascending (rev cs)
rev-Ascending [] h = tt
rev-Ascending (c ∷ cs) h =
    snoc (rev cs) (All-rev (λ d. d.touch ≤ c.touch) cs h.0) (rev-Ascending cs h.1)
  where
    snoc :
        (ds : List Cand) → All (λ d. d.touch ≤ c.touch) ds → Ascending ds → Ascending (ds ++ c ∷ [])
    snoc [] a h = (tt, tt)
    snoc (d ∷ ds) a h =
        (All-append (λ x. d.touch ≤ x.touch) ds (c ∷ []) h.0 (a.0, tt), snoc ds a.1 h.1)

pub drop-Descending : (n : ℕ) (cs : List Cand) → Descending cs → Descending (drop n cs)
drop-Descending zero cs h = h
drop-Descending (suc n) [] h = tt
drop-Descending (suc n) (c ∷ cs) h = drop-Descending n cs h.1

-- Every candidate of the floor is at least as recent as every one beyond it.
pub floor_above :
    (n : ℕ) (cs : List Cand)
    → Descending cs
    → All (λ c. All (λ d. c.touch ≤ d.touch) (take n cs)) (drop n cs)
floor_above zero cs h = all_trivial cs
  where
    all_trivial : (cs : List Cand) → All (λ c. Unit {0}) cs
    all_trivial [] = tt
    all_trivial (c ∷ cs) = (tt, all_trivial cs)
floor_above (suc n) [] h = tt
floor_above (suc n) (c ∷ cs) h =
    zip_above (drop n cs) (All-drop (λ d. d.touch ≤ c.touch) n cs h.0) (floor_above n cs h.1)
  where
    zip_above :
        (ds : List Cand)
        → All (λ d. d.touch ≤ c.touch) ds
        → All (λ d. All (λ e. d.touch ≤ e.touch) (take n cs)) ds
        → All (λ d. All (λ e. d.touch ≤ e.touch) (c ∷ take n cs)) ds
    zip_above [] a b = tt
    zip_above (d ∷ ds) a b = ((a.0, b.0), zip_above ds a.1 b.1)

module _ (is_paired : Key → Bool) (now : ℕ) where
  module _ (P : Cand → Type 0) where
    pub idle-All-alive :
        (pol : Policy) (cs : List Cand) → All P cs → All P (idle_pass is_paired pol now cs).alive
    unfolding idle_pass
    idle-All-alive pol [] h = tt
    idle-All-alive pol (c ∷ cs) h = ground (arith, idle-All-alive pol cs h.1)

    pub prune-All :
        (excess : ℕ) (cs : List Cand)
        → All P cs
        → All P (prune_from_end is_paired now excess cs).stopped
          × All P (prune_from_end is_paired now excess cs).alive
    unfolding prune_from_end
    prune-All zero cs h = (tt, h)
    prune-All (suc excess) [] h = (tt, tt)
    prune-All (suc excess) (c ∷ cs) h =
        ground (arith, prune-All (suc excess) cs h.1, prune-All excess cs h.1)

  pub idle-Descending :
      (pol : Policy) (cs : List Cand)
      → Descending cs
      → Descending (idle_pass is_paired pol now cs).alive
  unfolding idle_pass
  idle-Descending pol [] h = tt
  idle-Descending pol (c ∷ cs) h =
      ground (arith, idle-Descending pol cs h.1, idle-All-alive (λ d. d.touch ≤ c.touch) pol cs h.0)

  -- `s` is pruned although `a` stays: `a` is exempt, or at least as recent.
  abbrev pub YieldsTo : Cand → Cand → Type 0
  YieldsTo s a = IsExempt is_paired now a ⊎ (s.touch ≤ a.touch)

  pub prune_oldest :
      (excess : ℕ) (cs : List Cand)
      → Ascending cs
      → let after = prune_from_end is_paired now excess cs in
        All (λ s. All (YieldsTo s) after.alive) after.stopped
  unfolding prune_from_end
  prune_oldest zero cs h = tt
  prune_oldest (suc excess) [] h = tt
  prune_oldest (suc excess) (c ∷ cs) h = elim (Bool-cases (is_paired c.key || is_active now c)) [
    | inl e ↦ rw e (All-map _ _ (λ s a. (inl e, a)) _ (prune_oldest (suc excess) cs h.1))
    | inr e ↦ rw e (
      All-map (λ a. c.touch ≤ a.touch) (YieldsTo c) (λ a k. inr k) _
          (prune-All (λ d. c.touch ≤ d.touch) excess cs h.0).1,
      prune_oldest excess cs h.1,
    )
  ]
