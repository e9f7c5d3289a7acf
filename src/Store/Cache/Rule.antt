-- ===== src/Store/Cache/Rule.antt =====
-- The induction rule of the eviction loop: one premise for each way that a round goes.
use local_preview.Base.{
  ℕ, ◌+◌, ◌-◌, ◌≡◌, refl, Bool, true, false, List, [], ◌∷◌, if◌then◌else◌, leb, Option, none, some,
  find, String_comparable, pair_comparable,
}
use local_preview.Store.Cache.{
  Store, CacheEntry, Request, Outcome, is_pinned, evict_one, evict_loop, total_bytes,
  resident_artifacts, memoized, sort_entries, evict_cache_to_watermark, Dir, leftover,
  with_leftover,
}

module _ (r : Request) (P : List CacheEntry → ℕ → ℕ → Store → Outcome → Type 0)
    (at_end : (total freed : ℕ) (s : Store)
      → P [] total freed s (record { freed = freed; failed = false; store = s }))
    (reached : (e : CacheEntry) (es : List CacheEntry) (total freed : ℕ) (s : Store)
      → leb total r.max_bytes ≡ true
      → P (e ∷ es) total freed s (record { freed = freed; failed = false; store = s }))
    (skip : (e : CacheEntry) (es : List CacheEntry) (total freed : ℕ) (s : Store) (o : Outcome)
      → leb total r.max_bytes ≡ false
      → is_pinned r e ≡ true
      → P es total freed s o
      → P (e ∷ es) total freed s o)
    (evict : (e : CacheEntry) (es : List CacheEntry) (total freed : ℕ) (s : Store) (o : Outcome)
      → leb total r.max_bytes ≡ false
      → is_pinned r e ≡ false
      → P es (total - e.bytes) (freed + e.bytes) (evict_one e.id s) o
      → P (e ∷ es) total freed s o)
    (break_off : (e : CacheEntry) (es : List CacheEntry) (total freed : ℕ) (s : Store) (d : Dir)
      → is_pinned r e ≡ false
      → leftover r e.id (find e.id s.dirs) ≡ some d
      → P
          (e ∷ es)
          total
          freed
          s
          (record { freed = freed; failed = true; store = with_leftover e.id d s })) where
  round :
      (e : CacheEntry) (es : List CacheEntry) (total freed : ℕ) (s : Store)
      (skipped evicted : Outcome) (done pinned : Bool) (left : Option Dir)
      → leb total r.max_bytes ≡ done
      → is_pinned r e ≡ pinned
      → leftover r e.id (find e.id s.dirs) ≡ left
      → P es total freed s skipped
      → P es (total - e.bytes) (freed + e.bytes) (evict_one e.id s) evicted
      → P (e ∷ es) total freed s (
          if done
          then record { freed = freed; failed = false; store = s }
          else if pinned
          then skipped
          else elim left [
            | none ↦ evicted
            | some d ↦ record { freed = freed; failed = true; store = with_leftover e.id d s }
          ])
  round e es total freed s k v true pinned left d p q a b = reached e es total freed s d
  round e es total freed s k v false true left d p q a b = skip e es total freed s k d p a
  round e es total freed s k v false false none d p q a b = evict e es total freed s v d p b
  round e es total freed s k v false false (some x) d p q a b = break_off e es total freed s x p q

  pub evict_loop_rule :
      (es : List CacheEntry) (total freed : ℕ) (s : Store)
      → P es total freed s (evict_loop r es total freed s)
  unfolding evict_loop
  evict_loop_rule [] total freed s = at_end total freed s
  evict_loop_rule (e ∷ es) total freed s =
      round e es total freed s _ _ (leb total r.max_bytes) (is_pinned r e)
        (leftover r e.id (find e.id s.dirs)) refl refl refl (evict_loop_rule es total freed s)
        (evict_loop_rule es (total - e.bytes) (freed + e.bytes) (evict_one e.id s))

-- The ways that a whole eviction goes: without a durable tier, below the watermark, or by the loop.
pub eviction_cases :
    (r : Request) (s : Store) (P : Outcome → Type 0)
    → (s.has_tier ≡ false → P (record { freed = 0; failed = false; store = s }))
    → (leb (total_bytes (resident_artifacts s s.dirs)) r.max_bytes ≡ true
        → P (record { freed = 0; failed = false; store = memoized s.dirs s }))
    → (leb (total_bytes (resident_artifacts s s.dirs)) r.max_bytes ≡ false
        → P (
            evict_loop r
              (sort_entries (resident_artifacts s s.dirs))
              (total_bytes (resident_artifacts s s.dirs))
              0
              (memoized s.dirs s)))
    → P (evict_cache_to_watermark r s)
unfolding evict_cache_to_watermark
eviction_cases r s P bare fits over =
    cases s.has_tier (leb (total_bytes (resident_artifacts s s.dirs)) r.max_bytes) refl refl
  where
    cases :
        (t b : Bool)
        → s.has_tier ≡ t
        → leb (total_bytes (resident_artifacts s s.dirs)) r.max_bytes ≡ b
        → P (
            if t
            then (if b
                then record { freed = 0; failed = false; store = memoized s.dirs s }
                else evict_loop r
                    (sort_entries (resident_artifacts s s.dirs))
                    (total_bytes (resident_artifacts s s.dirs))
                    0
                    (memoized s.dirs s))
            else record { freed = 0; failed = false; store = s })
    cases true true h g = fits g
    cases true false h g = over g
    cases false b h g = bare h
