-- ===== src/Store/Cache/Reached.antt =====
-- A whole eviction ends at or below the watermark, or keeps only what it must not touch.
use local_preview.Base.{
  ◌≤◌, ◌≡◌, ◌⊎◌, inl, inr, refl, subst, sym, ◌∙◌, true, false, some, none, List, [], ◌∷◌, arith,
  ltb, leb→le, if◌then◌else◌, All, Bool-cases, Table, find, String_comparable, pair_same,
  pair_same_iff, pair_comparable,
}
use local_preview.Store.Cache.{
  ArtifactId, Dir, Store, CacheEntry, Request, Outcome, total_bytes, resident_artifacts, entry_of,
  memoized, insert_entry, sort_entries, evict_loop, evict_cache_to_watermark,
}
use local_preview.Store.Cache.Rule.{eviction_cases}
use local_preview.Store.Cache.Backed.{
  disk_bytes, Distinct, Coherent, Backed-sort, Backed-resident, size_confirmed,
}
use local_preview.Store.Cache.Accounting.{dirs-memoized}
use local_preview.Store.Cache.Pinned.{IsPinned}
use local_preview.Store.Cache.Watermark.{GoneOrKept, Settled, evict_loop-Reached}

total_bytes-resident :
    (s : Store) (m : Table ArtifactId Dir)
    → Coherent s.size_cache m
    → total_bytes (resident_artifacts s m) ≡ disk_bytes m
unfolding resident_artifacts entry_of
total_bytes-resident s [] c = refl
total_bytes-resident s ((id, d) ∷ m) c =
    omega (arith, size_confirmed (find id s.size_cache) d c.0, total_bytes-resident s m c.1)

All-insert_back :
    (P : CacheEntry → Type 0) (e : CacheEntry) (es : List CacheEntry)
    → All P (insert_entry e es)
    → P e × All P es
unfolding insert_entry
All-insert_back P e [] h = h
All-insert_back P e (f ∷ fs) h = elim (Bool-cases (ltb f.recency e.recency)) [
  | inl older ↦
      let h' : P f × All P (insert_entry e fs) = rw older at h in
      let (p, q) = All-insert_back P e fs h'.1 in (p, (h'.0, q))
  | inr newer ↦ rw newer at h
]

All-sort_back :
    (P : CacheEntry → Type 0) (es : List CacheEntry) → All P (sort_entries es) → All P es
unfolding sort_entries
All-sort_back P [] h = tt
All-sort_back P (e ∷ es) h =
    let (p, q) = All-insert_back P e (sort_entries es) h in (p, All-sort_back P es q)

-- The directory's own entry says that it is pinned, or that it is gone.
Settled-dir :
    (r : Request) (s after : Store) (id : ArtifactId) (d : Dir) (m : Table ArtifactId Dir)
    → find id m ≡ some d
    → All (Settled r after) (resident_artifacts s m)
    → IsPinned r id d ⊎ (find id after.dirs ≡ none)
unfolding find resident_artifacts entry_of
Settled-dir r s after id d [] f a = absurd (cc)
Settled-dir r s after id d ((k, v) ∷ m) f a = elim (Bool-cases (pair_same k id)) [
  | inl same ↦ own ((pair_same_iff k id).0 same) (mtime_of same f) a.0
  | inr other ↦ Settled-dir r s after id d m (rw other at f) a.1
]
  where
    mtime_of :
        pair_same k id ≡ true
        → (if pair_same k id then some v else find id m) ≡ some d
        → v.mtime ≡ d.mtime
    mtime_of same f = ground arith

    own :
        k ≡ id
        → v.mtime ≡ d.mtime
        → Settled r after (entry_of s k v)
        → IsPinned r id d ⊎ (find id after.dirs ≡ none)
    own here e (inl p) = inl (rw (← here, ← e) p)
    own here e (inr g) = inr (subst (λ i. find i after.dirs ≡ none) here g)

-- With a durable tier, each directory listed once and a truthful memo, an eviction that does not
-- fail brings the disk to the watermark or below, or every directory that is still on the disk is
-- pinned by the caller or younger than the minimum age.
pub eviction_reaches_watermark :
    (r : Request) (s : Store)
    → s.has_tier ≡ true
    → Distinct s.dirs
    → Coherent s.size_cache s.dirs
    → (evict_cache_to_watermark r s).failed ≡ false
    → (disk_bytes (evict_cache_to_watermark r s).store.dirs ≤ r.max_bytes)
      ⊎ ((id : ArtifactId) (d : Dir)
          → find id (evict_cache_to_watermark r s).store.dirs ≡ some d
          → IsPinned r id d)
eviction_reaches_watermark r s t u c =
    eviction_cases r s
      (λ o.
        o.failed ≡ false
        → (disk_bytes o.store.dirs ≤ r.max_bytes)
          ⊎ ((id : ArtifactId) (d : Dir) → find id o.store.dirs ≡ some d → IsPinned r id d))
      (λ h ok. absurd (cc))
      (λ h ok. inl (
        rw (dirs-memoized s.dirs s) (omega (arith, leb→le _ _ h, total_bytes-resident s s.dirs c))))
      (λ h ok. looped (reached ok))
  where
    entries : List CacheEntry
    entries = resident_artifacts s s.dirs

    o : Outcome
    o = evict_loop r (sort_entries entries) (total_bytes entries) 0 (memoized s.dirs s)

    reached :
        o.failed ≡ false
        → (disk_bytes o.store.dirs ≤ r.max_bytes)
          ⊎ (All (Settled r o.store) (sort_entries entries)
              × ((id : ArtifactId) → GoneOrKept (memoized s.dirs s) o.store id))
    reached ok =
        evict_loop-Reached r (sort_entries entries) (total_bytes entries) 0 (memoized s.dirs s)
          (rw (dirs-memoized s.dirs s) u)
          (rw (dirs-memoized s.dirs s) (Backed-sort s.dirs entries (Backed-resident s s.dirs u c)))
          (rw (dirs-memoized s.dirs s) (total_bytes-resident s s.dirs c)) ok

    before :
        (id : ArtifactId) (d : Dir)
        → GoneOrKept (memoized s.dirs s) o.store id
        → find id o.store.dirs ≡ some d
        → find id s.dirs ≡ some d
    before id d (inl n) f = absurd (cc)
    before id d (inr k) f = subst (λ m. find id m ≡ some d) (dirs-memoized s.dirs s) (sym k ∙ f)

    settled :
        (id : ArtifactId) (d : Dir)
        → find id o.store.dirs ≡ some d
        → IsPinned r id d ⊎ (find id o.store.dirs ≡ none)
        → IsPinned r id d
    settled id d f (inl p) = p
    settled id d f (inr n) = absurd (cc)

    looped :
        (disk_bytes o.store.dirs ≤ r.max_bytes)
          ⊎ (All (Settled r o.store) (sort_entries entries)
              × ((id : ArtifactId) → GoneOrKept (memoized s.dirs s) o.store id))
        → (disk_bytes o.store.dirs ≤ r.max_bytes)
          ⊎ ((id : ArtifactId) (d : Dir) → find id o.store.dirs ≡ some d → IsPinned r id d)
    looped (inl n) = inl n
    looped (inr (a, g)) = inr λ id d f. settled id d f (
        Settled-dir r s o.store id d s.dirs (before id d (g id) f)
          (All-sort_back (Settled r o.store) entries a))
