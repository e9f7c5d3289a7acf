-- ===== src/Store/Cache/Pinned.antt =====
-- What an eviction never touches.
use local_preview.Base.{
  ℕ, ◌+◌, ◌≡◌, ◌⊎◌, inl, inr, refl, subst, All-map, sym, ◌∙◌, true, false, ◌&&◌, ◌||◌, List, [],
  ◌∷◌, arith, ltb, some, none, if◌then◌else◌, All, Bool-cases, Table, find, put, find-put,
  find-delete, String_comparable, pair_same, pair_same_iff, pair_comparable,
}
use local_preview.Store.Cache.{
  ArtifactId, Dir, Store, CacheEntry, Request, resident_artifacts, memoized, is_pinned,
  is_protected, entry_of, sort_entries, evict_one, evict_loop, evict_cache_to_watermark,
}
use local_preview.Store.Cache.Rule.{evict_loop_rule, eviction_cases}
use local_preview.Store.Cache.Backed.{Distinct, All-sort_entries, absent_differs, pair_same_sym}
use local_preview.Store.Cache.Accounting.{dirs-memoized}

-- The artifact of every entry that an eviction may take is another one.
abbrev IsSpared : Request → ArtifactId → CacheEntry → Type 0
IsSpared r id e = (is_pinned r e ≡ true) ⊎ (pair_same e.id id ≡ false)

spared_loop :
    (r : Request) (id : ArtifactId) (es : List CacheEntry) (total freed : ℕ) (s : Store)
    → All (IsSpared r id) es
    → find id (evict_loop r es total freed s).store.dirs ≡ find id s.dirs
spared_loop r id =
    evict_loop_rule r
      (λ es total freed s o. All (IsSpared r id) es → find id o.store.dirs ≡ find id s.dirs)
      (λ total freed s a. refl) (λ e es total freed s d a. refl)
      (λ e es total freed s o d p ih a. ih a.1)
      (λ e es total freed s o d p ih a. ih a.1 ∙ kept e s p a.0)
      (λ e es total freed s d p q a. left e s d p a.0)
  where
    left :
        (e : CacheEntry) (s : Store) (d : Dir)
        → is_pinned r e ≡ false
        → IsSpared r id e
        → find id (put e.id d s.dirs) ≡ find id s.dirs
    left e s d p (inl h) = absurd (ground arith)
    left e s d p (inr other) = find-put e.id id d s.dirs ∙ rw other refl

    kept :
        (e : CacheEntry) (s : Store)
        → is_pinned r e ≡ false
        → IsSpared r id e
        → find id (evict_one e.id s).dirs ≡ find id s.dirs
    kept e s p (inl h) = absurd (ground arith)
    kept e s p (inr other) = unfold evict_one in find-delete e.id id s.dirs ∙ rw other refl

-- The caller pins the artifact, or its directory is younger than the minimum age.
abbrev pub IsPinned : Request → ArtifactId → Dir → Type 0
IsPinned r id d =
    (ltb 0 r.min_age && ltb r.now (d.mtime + r.min_age) || is_protected r.protect id) ≡ true

resident-IsSpared :
    (r : Request) (s : Store) (id : ArtifactId) (d : Dir) (m : Table ArtifactId Dir)
    → Distinct m
    → find id m ≡ some d
    → IsPinned r id d
    → All (IsSpared r id) (resident_artifacts s m)
unfolding find resident_artifacts entry_of
resident-IsSpared r s id d [] u f p = tt
resident-IsSpared r s id d ((k, v) ∷ m) u f p = elim (Bool-cases (pair_same k id)) [
  | inl same ↦
      let here : k ≡ id = (pair_same_iff k id).0 same in
      (
        inl (subst (λ i. is_pinned r (entry_of s i v) ≡ true) (sym here) (rw (mtime_of same f) p)),
        All-map (λ e. pair_same id e.id ≡ false) (IsSpared r id)
            (λ e h. inr (pair_same_sym id e.id h)) (resident_artifacts s m)
            (absent_differs s id m (subst (λ i. find i m ≡ none) here u.0)),
      )
  | inr other ↦ (inr other, resident-IsSpared r s id d m u.1 (rw other at f) p)
]
  where
    mtime_of :
        pair_same k id ≡ true
        → (if pair_same k id then some v else find id m) ≡ some d
        → v.mtime ≡ d.mtime
    mtime_of same f = ground arith

-- An artifact that the caller pins, or whose directory is younger than the minimum age, is on the
-- disk after an eviction as it was before, whatever the watermark and whatever fails.
pub eviction_spares_pinned :
    (r : Request) (s : Store) (id : ArtifactId) (d : Dir)
    → Distinct s.dirs
    → find id s.dirs ≡ some d
    → IsPinned r id d
    → find id (evict_cache_to_watermark r s).store.dirs ≡ some d
eviction_spares_pinned r s id d u f p =
    eviction_cases r s (λ o. find id o.store.dirs ≡ some d) (λ h. f)
      (λ h. rw (dirs-memoized s.dirs s) f)
      (λ h.
        spared_loop r id (sort_entries (resident_artifacts s s.dirs)) _ 0 (memoized s.dirs s)
          (All-sort_entries (IsSpared r id) _ (resident-IsSpared r s id d s.dirs u f p))
        ∙ rw (dirs-memoized s.dirs s) f)
