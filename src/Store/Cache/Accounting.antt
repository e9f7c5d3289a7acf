-- ===== src/Store/Cache/Accounting.antt =====
-- The bytes that an eviction reports are the bytes that leave the disk.
use local_preview.Base.{
  ℕ, ◌+◌, ◌-◌, ◌≤◌, ◌≡◌, refl, List, [], ◌∷◌, arith, Bool-cases, true, inl, inr, ◌⊎◌, Table, Option,
  some, none, false, find, put, ap, String_comparable, pair_comparable,
}
use local_preview.Store.Cache.Rule.{evict_loop_rule, eviction_cases}
use local_preview.Store.Cache.{
  ArtifactId, Dir, Store, CacheEntry, Request, Outcome, resident_artifacts, memoized, total_bytes,
  sort_entries, evict_one, evict_loop, evict_cache_to_watermark, leftover,
}
use local_preview.Store.Cache.Backed.{
  disk_bytes, Distinct, Coherent, Backed, Backed-delete, Distinct-delete, disk_bytes-evict,
  Backed-sort, Backed-resident,
}

-- RemoveAll never leaves more of a directory than there was.
abbrev pub Shrinks : Request → Type 0
Shrinks r = (id : ArtifactId) (d left : Dir) → r.removal id d ≡ some left → left.size ≤ d.size

disk_bytes-put :
    (id : ArtifactId) (d left : Dir) (m : Table ArtifactId Dir)
    → find id m ≡ some d
    → left.size ≤ d.size
    → disk_bytes (put id left m) ≤ disk_bytes m
unfolding find put
disk_bytes-put id d left [] f h = absurd (ground arith)
disk_bytes-put id d left ((k, e) ∷ m) f h = ground (arith, disk_bytes-put id d left m)

leftover-Shrinks :
    (r : Request) (id : ArtifactId) (left : Dir) (m : Table ArtifactId Dir)
    → Shrinks r
    → leftover r id (find id m) ≡ some left
    → disk_bytes (put id left m) ≤ disk_bytes m
leftover-Shrinks r id left m h e = go (find id m) refl e
  where
    go :
        (o : Option Dir)
        → find id m ≡ o
        → leftover r id o ≡ some left
        → disk_bytes (put id left m) ≤ disk_bytes m
    go none f g = absurd (cc)
    go (some d) f g = disk_bytes-put id d left m f (h id d left g)

-- What the eviction loop keeps true at its end, when `freed` was freed before it.
pub record Accounted (r : Request) (es : List CacheEntry) (total freed : ℕ) (s : Store)
    (o : Outcome) : Type 0 where
  pub balance :
      Distinct s.dirs
      → Backed s.dirs es
      → o.failed ≡ false
      → disk_bytes o.store.dirs + o.freed ≡ disk_bytes s.dirs + freed
  pub within :
      Distinct s.dirs
      → Backed s.dirs es
      → Shrinks r
      → disk_bytes o.store.dirs + o.freed ≤ disk_bytes s.dirs + freed
  pub grows : freed ≤ o.freed

Accounted-evict :
    (r : Request) (e : CacheEntry) (es : List CacheEntry) (total freed : ℕ) (s : Store)
    (o : Outcome)
    → Accounted r es (total - e.bytes) (freed + e.bytes) (evict_one e.id s) o
    → Accounted r (e ∷ es) total freed s o
unfolding evict_one
Accounted-evict r e es total freed s o a = record {
  balance = λ u b ok. omega (
    arith,
    a.balance (Distinct-delete e.id s.dirs u) (Backed-delete e.id s.dirs es b.1 b.2) ok,
    disk_bytes-evict e s u b.0,
  );
  within = λ u b h. omega (
    arith,
    a.within (Distinct-delete e.id s.dirs u) (Backed-delete e.id s.dirs es b.1 b.2) h,
    disk_bytes-evict e s u b.0,
  );
  grows = omega (arith, a.grows);
}

evict_loop-Accounted :
    (r : Request) (es : List CacheEntry) (total freed : ℕ) (s : Store)
    → Accounted r es total freed s (evict_loop r es total freed s)
evict_loop-Accounted r =
    evict_loop_rule r (Accounted r) (λ total freed s. same [] total freed s)
      (λ e es total freed s d. same (e ∷ es) total freed s)
      (λ e es total freed s o d p a. record {
        balance = λ u b. a.balance u b.2;
        within = λ u b. a.within u b.2;
        grows = a.grows;
      })
      (λ e es total freed s o d p a. Accounted-evict r e es total freed s o a)
      (λ e es total freed s d p q. record {
        balance = λ u b ok. absurd (cc);
        within = λ u b h. omega (arith, leftover-Shrinks r e.id d s.dirs h q);
        grows = omega arith;
      })
  where
    same :
        (es : List CacheEntry) (total freed : ℕ) (s : Store)
        → Accounted r es total freed s (record { freed = freed; failed = false; store = s })
    same es total freed s = record {
      balance = λ u b ok. refl;
      within = λ u b h. omega arith;
      grows = omega arith;
    }

pub dirs-memoized : (m : Table ArtifactId Dir) (s : Store) → (memoized m s).dirs ≡ s.dirs
unfolding memoized
dirs-memoized [] s = refl
dirs-memoized ((id, d) ∷ m) s = dirs-memoized m _

-- When each directory is listed once and the memo is right about every directory whose modification
-- time it confirms, the bytes on the disk after an eviction that does not fail and the bytes that it
-- reports as freed add up to the bytes on the disk before. When RemoveAll breaks off on a directory, of
-- which it leaves no more than there was, they add up to no more than that: the report never
-- overstates what was freed.
pub eviction_balance :
    (r : Request) (s : Store)
    → Distinct s.dirs
    → Coherent s.size_cache s.dirs
    → Shrinks r
    → ((disk_bytes (evict_cache_to_watermark r s).store.dirs + (evict_cache_to_watermark r s).freed
          ≡ disk_bytes s.dirs)
        ⊎ ((evict_cache_to_watermark r s).failed ≡ true))
      × (disk_bytes (evict_cache_to_watermark r s).store.dirs + (evict_cache_to_watermark r s).freed
          ≤ disk_bytes s.dirs)
eviction_balance r s u c h =
    eviction_cases r s
      (λ o.
        ((disk_bytes o.store.dirs + o.freed ≡ disk_bytes s.dirs) ⊎ (o.failed ≡ true))
        × (disk_bytes o.store.dirs + o.freed ≤ disk_bytes s.dirs))
      (λ t. (inl (omega arith), omega arith))
      (λ t. rw (dirs-memoized s.dirs s) (inl (omega arith), omega arith)) (λ t. looped)
  where
    swept : Store
    swept = memoized s.dirs s

    entries : List CacheEntry
    entries = resident_artifacts s s.dirs

    listed : Distinct swept.dirs
    listed = rw (dirs-memoized s.dirs s) u

    backed : Backed swept.dirs (sort_entries entries)
    backed = rw (dirs-memoized s.dirs s) (Backed-sort s.dirs entries (Backed-resident s s.dirs u c))

    o : Outcome
    o = evict_loop r (sort_entries entries) (total_bytes entries) 0 swept

    looped :
        ((disk_bytes o.store.dirs + o.freed ≡ disk_bytes s.dirs) ⊎ (o.failed ≡ true))
        × (disk_bytes o.store.dirs + o.freed ≤ disk_bytes s.dirs)
    looped =
        let a = evict_loop-Accounted r (sort_entries entries) (total_bytes entries) 0 swept in
        let same : disk_bytes swept.dirs ≡ disk_bytes s.dirs =
          ap (λ (m : Table ArtifactId Dir). disk_bytes m) (dirs-memoized s.dirs s) in
        (
          elim (Bool-cases o.failed) [
            | inl broke ↦ inr broke
            | inr ok ↦ inl (omega (arith, a.balance listed backed ok, same))
          ],
          omega (arith, a.within listed backed h, same),
        )
