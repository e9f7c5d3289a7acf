-- ===== src/Build/Retry.antt =====
-- startWithRetry: the auto-start's retries while the fleet has no worker.
use local_preview.Base.{
  ℕ, zero, suc, ◌+◌, ◌-◌, ◌≤◌, ◌<◌, ◌≡◌, ◌≢◌, refl, Bool, true, false, ◌||◌, leb, if◌then◌else◌,
  arith, ◌⊎◌, inl, inr, Bool-cases, leb→le, ap, if_cases,
}

-- What one start returns: nil, fleet.ErrNoWorker, or another error.
pub data Start : Type 0 where
  started no_worker start_failed : Start

abbrev pub is_no_worker : Start → Bool
is_no_worker no_worker = true
is_no_worker _ = false

-- The error returned and the number of starts made. `stuck` is no value of the code.
pub data Tried : Type 0 where
  tried : Start → ℕ → Tried
  stuck : Tried

-- The outcome of every start, and whether the context is done in the gap after it.
module _ (start : ℕ → Start) (done : ℕ → Bool) (attempts : ℕ) where
  -- for i := 0; ; i++; attempts is positive where the code calls it, so -1 does not go below 0.
  unfoldable pub retry_from : ℕ → ℕ → Tried
  retry_from zero i = stuck
  retry_from (suc fuel) i =
      let again = retry_from fuel (i + 1) in
      if is_no_worker (start i)
      then (if leb (attempts - 1) i || done i then tried (start i) (i + 1) else again)
      else tried (start i) (i + 1)

  unfoldable pub start_with_retry : Tried
  start_with_retry = retry_from attempts 0

  -- It returned the last start's outcome after `n` starts, all but the last of which found no worker.
  abbrev pub EndsWith : Tried → Type 0
  EndsWith stuck = ⊥
  EndsWith (tried r n) =
      (1 ≤ n)
      × (n ≤ attempts)
      × (r ≡ start (n - 1))
      × ((i : ℕ) → i + 1 < n → start i ≡ no_worker)
      × ((r ≢ no_worker) ⊎ ((n ≡ attempts) ⊎ (done (n - 1) ≡ true)))

  is_no_worker→ : (r : Start) → is_no_worker r ≡ true → r ≡ no_worker
  is_no_worker→ started h = cc
  is_no_worker→ no_worker h = refl
  is_no_worker→ start_failed h = cc

  worked : (r : Start) → is_no_worker r ≡ false → r ≢ no_worker
  worked r h e = ground arith

  why_stop :
      (i : ℕ)
      → i < attempts
      → (leb (attempts - 1) i || done i) ≡ true
      → (i + 1 ≡ attempts) ⊎ (done (i + 1 - 1) ≡ true)
  why_stop i h e = elim (Bool-cases (leb (attempts - 1) i)) [
    | inl l ↦ inl (omega (arith, leb→le _ _ l))
    | inr l ↦ inr (rw (done_at i) (or_right (leb (attempts - 1) i) (done i) l e))
  ]
    where
      done_at : (i : ℕ) → i + 1 - 1 ≡ i
      done_at i = omega arith

      or_right : (a b : Bool) → a ≡ false → (a || b) ≡ true → b ≡ true
      or_right a b h e = ground arith

  at_last : (i : ℕ) → start i ≡ start (i + 1 - 1)
  at_last i = ap start (omega arith)

  earlier :
      (i : ℕ)
      → ((j : ℕ) → j < i → start j ≡ no_worker)
      → (j : ℕ) → j + 1 < i + 1
      → start j ≡ no_worker
  earlier i before j h = before j (omega arith)

  one_more :
      (i : ℕ)
      → ((j : ℕ) → j < i → start j ≡ no_worker)
      → start i ≡ no_worker
      → (j : ℕ) → j < i + 1
      → start j ≡ no_worker
  one_more i before e j h = elim (here_or_before j h) [ inl p ↦ rw p e | inr l ↦ before j l ]
    where
      here_or_before : (j : ℕ) → j < i + 1 → (j ≡ i) ⊎ (j < i)
      here_or_before j h = omega arith

  retry_from-EndsWith :
      (fuel i : ℕ)
      → i < attempts
      → attempts ≤ i + fuel
      → ((j : ℕ) → j < i → start j ≡ no_worker)
      → EndsWith (retry_from fuel i)
  unfolding retry_from
  retry_from-EndsWith zero i h f before = absurd (omega arith)
  retry_from-EndsWith (suc fuel) i h f before =
      if_cases EndsWith (is_no_worker (start i)) _ _
        (λ none.
          if_cases EndsWith (leb (attempts - 1) i || done i) _ _
            (λ e. (omega arith, omega arith, at_last i, earlier i before, inr (why_stop i h e)))
            (λ e.
              retry_from-EndsWith fuel (i + 1) (more i h e) (omega arith)
                (one_more i before (is_no_worker→ (start i) none))))
        (λ e. (omega arith, omega arith, at_last i, earlier i before, inl (worked (start i) e)))
    where
      more : (i : ℕ) → i < attempts → (leb (attempts - 1) i || done i) ≡ false → i + 1 < attempts
      more i h e = ground arith

  -- The auto-start of a positive number of attempts ends: it makes between one and that many starts,
  -- each but the last found no worker, its result is the last start's, and it stops there because
  -- that start found a worker, or the attempts are used up, or the context is done.
  pub start_with_retry-EndsWith : 1 ≤ attempts → EndsWith start_with_retry
  unfolding start_with_retry
  start_with_retry-EndsWith h =
      retry_from-EndsWith attempts 0 h (omega arith) λ j l. absurd (omega arith)
