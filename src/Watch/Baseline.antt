-- ===== src/Watch/Baseline.antt =====
-- The first pass over a repo that has just started being watched.
use local_preview.Base.{
  ℕ, ◌≡◌, refl, sym, subst, String, Bool, true, false, not, Option, List, [], ◌∷◌, ◌++◌, ◌==◌,
  if◌then◌else◌, if_cases, any, keep, arith, All, All-map, same_refl, ℕ_comparable, list_comparable,
  ==_iff,
}
use local_preview.Db.Deploys.{Sha}
use local_preview.Build.{Repo, Outcome, ok, err}
use local_preview.Build.Request.{Git}
use local_preview.Build.Changes.{Advances, Advances-refl, Advances-trans}
use local_preview.Build.Queued.{evict_unreachable-Advances}
use local_preview.Build.Unreachable.{evict_unreachable}
use local_preview.Watch.Globs.{Text}
use local_preview.Watch.Poll.{
  Tip, Watcher, in_baseline, tip_shas, baseline_rows, set_watch_baseline, row_of, wants,
  request_tips, prune_watch_baseline, after_evict, evict_pass, reconcile,
}

in_baseline-append :
    (id : ℕ) (sha : Sha) (xs ys : List (ℕ × Sha))
    → in_baseline id sha ys ≡ true
    → in_baseline id sha (xs ++ ys) ≡ true
unfolding in_baseline
in_baseline-append id sha [] ys h = h
in_baseline-append id sha (x ∷ xs) ys h = ground (arith, in_baseline-append id sha xs ys)

self : (id : ℕ) → (id == id) ≡ true
self id = (==_iff id id).1 refl

listed_later :
    (id : ℕ) (t : Tip) (e : ℕ × Sha) (rows : List (ℕ × Sha))
    → in_baseline id t.sha rows ≡ true
    → in_baseline id t.sha (e ∷ rows) ≡ true
unfolding in_baseline
listed_later id t e rows h = ground arith

listed_here :
    (id : ℕ) (t : Tip) (rows : List (ℕ × Sha)) → in_baseline id t.sha ((id, t.sha) ∷ rows) ≡ true
unfolding in_baseline
listed_here id t rows = rw (self id) (ground (arith, same_refl t.sha))

abbrev Listed : ℕ → List (ℕ × Sha) → List Tip → Type 0
Listed id rows = All (λ t. in_baseline id t.sha rows ≡ true)

Listed-all : (id : ℕ) (ts : List Tip) → Listed id (baseline_rows id (tip_shas ts)) ts
Listed-all id [] = tt
Listed-all id (t ∷ ts) = (
  listed_here id t (baseline_rows id (tip_shas ts)),
  All-map (λ (s : Tip). in_baseline id s.sha (baseline_rows id (tip_shas ts)) ≡ true)
      (λ s. in_baseline id s.sha (baseline_rows id (tip_shas (t ∷ ts))) ≡ true)
      (λ s h. listed_later id s (id, t.sha) (baseline_rows id (tip_shas ts)) h) ts
      (Listed-all id ts),
)

Listed-append :
    (id : ℕ) (xs ys : List (ℕ × Sha)) (ts : List Tip) → Listed id ys ts → Listed id (xs ++ ys) ts
Listed-append id xs ys ts h =
    All-map (λ (s : Tip). in_baseline id s.sha ys ≡ true)
      (λ s. in_baseline id s.sha (xs ++ ys) ≡ true) (λ s h. in_baseline-append id s.sha xs ys h) ts
      h

all-Listed :
    (id : ℕ) (ts : List Tip) (w : Watcher)
    → Listed id (set_watch_baseline id (tip_shas ts) w).baselines ts
unfolding set_watch_baseline
all-Listed id ts w =
    Listed-append id (keep (λ e. not (row_of id e)) w.baselines) (baseline_rows id (tip_shas ts)) ts
      (Listed-all id ts)

unbothered :
    (id : ℕ) (shas : List Sha) (w : Watcher) → Advances w.queue (set_watch_baseline id shas w).queue
unfolding set_watch_baseline
unbothered id shas w = record { quiet = λ j h. h; same_work = refl }

pruned :
    (id : ℕ) (shas : List Sha) (w : Watcher)
    → Advances w.queue (prune_watch_baseline id shas w).queue
unfolding prune_watch_baseline
pruned id shas w = Advances-refl w.queue

module _ (git : Git) (path_match : Text → Text → Option Bool) (spell : Sha → String)
    (now : String) where
  -- Tips of the baseline are not requested.
  request_tips_none :
      (repo : Repo) (ts : List Tip) (w : Watcher)
      → Listed repo.id w.baselines ts
      → request_tips git path_match spell now repo ts w ≡ w
  unfolding request_tips
  request_tips_none repo [] w h = refl
  request_tips_none repo (t ∷ ts) w h =
      if_cases (λ (u : Watcher). u ≡ w) (wants git path_match spell now repo w t) _ _
        (λ e. absurd (ground (arith, h.0))) (λ e. request_tips_none repo ts w h.1)

  evict_pass-Advances :
      (evict : Bool) (repo : Repo) (ts : List Tip) (w : Watcher)
      → Advances w.queue (evict_pass git path_match spell now evict repo ts w).queue
  evict_pass-Advances false repo ts w = Advances-refl w.queue
  evict_pass-Advances true repo ts w =
      if_cases
        (λ (u : Watcher).
          Advances w.queue
            (after_evict git path_match spell now repo ts u
              (evict_unreachable git repo (tip_shas ts) u.queue)).queue)
        (any (row_of repo.id) w.baselines) _ _
        (λ e. after (prune_watch_baseline repo.id (tip_shas ts) w) (pruned repo.id (tip_shas ts) w))
        (λ e. after w (Advances-refl w.queue))
    where
      ended :
          (u : Watcher) (m : Outcome ℕ)
          → Advances w.queue m.0
          → Advances w.queue (after_evict git path_match spell now repo ts u m).queue
      ended u (q, ok n) a = a
      ended u (q, err e) a = a

      after :
          (u : Watcher)
          → Advances w.queue u.queue
          → Advances w.queue
              (after_evict git path_match spell now repo ts u
                (evict_unreachable git repo (tip_shas ts) u.queue)).queue
      after u a =
          ended u (evict_unreachable git repo (tip_shas ts) u.queue)
            (Advances-trans a (evict_unreachable-Advances git repo (tip_shas ts) u.queue))

  -- A repo that has just started being watched deploys nothing. When it is not baselined, a pass with
  -- any tips, patterns and evictions leaves the work queue as it is, and makes no deploy queued.
  pub reconcile_first :
      (repo : Repo) (tips : List Tip) (evict : Bool) (w : Watcher)
      → repo.watch_baselined ≡ false
      → Advances w.queue (reconcile git path_match spell now repo tips evict w).queue
  unfolding reconcile
  reconcile_first repo tips evict w fresh =
      let u = set_watch_baseline repo.id (tip_shas tips) w in
      let over : Bool → Watcher = λ b. if b then w else u in
      subst
        (λ (b : Bool).
          Advances w.queue
            (evict_pass git path_match spell now evict repo tips
              (request_tips git path_match spell now repo tips (over b))).queue)
        (sym fresh)
        (subst
          (λ (v : Watcher).
            Advances w.queue (evict_pass git path_match spell now evict repo tips v).queue)
          (sym (request_tips_none repo tips u (all-Listed repo.id tips w)))
          (Advances-trans (unbothered repo.id (tip_shas tips) w)
            (evict_pass-Advances evict repo tips u)))
