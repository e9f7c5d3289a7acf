-- ===== src/Store/Cache/Watermark.antt =====
-- How far an eviction goes.
use local_preview.Base.{
  ℕ, ◌+◌, ◌-◌, ◌≤◌, ◌≡◌, ◌⊎◌, inl, inr, refl, ◌∙◌, true, false, none, List, ◌∷◌, arith, All, find,
  find-delete, String_comparable, pair_comparable, same_refl,
}
use local_preview.Store.Cache.{
  ArtifactId, Store, CacheEntry, Request, Outcome, is_pinned, evict_one, evict_loop,
}
use local_preview.Store.Cache.Rule.{evict_loop_rule}
use local_preview.Store.Cache.Backed.{
  disk_bytes, Distinct, Backed, Backed-delete, Distinct-delete, disk_bytes-evict,
}

-- A directory is gone, or what it was.
abbrev pub GoneOrKept : Store → Store → ArtifactId → Type 0
GoneOrKept s after id = (find id after.dirs ≡ none) ⊎ (find id after.dirs ≡ find id s.dirs)

-- A loop that did not fail leaves no directory in part.
abbrev WholeOnly : Store → Outcome → ArtifactId → Type 0
WholeOnly s o id = o.failed ≡ false → GoneOrKept s o.store id

GoneOrKept-evict :
    (e : CacheEntry) (s after : Store) (id : ArtifactId)
    → GoneOrKept (evict_one e.id s) after id
    → GoneOrKept s after id
unfolding evict_one
GoneOrKept-evict e s after id (inl n) = inl n
GoneOrKept-evict e s after id (inr k) = ground (arith, find-delete e.id id s.dirs)

evict_loop-GoneOrKept :
    (r : Request) (id : ArtifactId) (es : List CacheEntry) (total freed : ℕ) (s : Store)
    → WholeOnly s (evict_loop r es total freed s) id
evict_loop-GoneOrKept r id =
    evict_loop_rule r (λ es total freed s o. WholeOnly s o id) (λ total freed s ok. inr refl)
      (λ e es total freed s d ok. inr refl) (λ e es total freed s o d p ih. ih)
      (λ e es total freed s o d p ih ok. GoneOrKept-evict e s o.store id (ih ok))
      (λ e es total freed s d p q ok. absurd (cc))

-- Pinned, or not on the disk.
abbrev pub Settled : Request → Store → CacheEntry → Type 0
Settled r s e = (is_pinned r e ≡ true) ⊎ (find e.id s.dirs ≡ none)

-- What a loop that did not fail has reached, if `total` was the size of the disk before it.
abbrev pub Reached : Request → List CacheEntry → ℕ → ℕ → Store → Outcome → Type 0
Reached r es total freed s o =
    Distinct s.dirs
    → Backed s.dirs es
    → total ≡ disk_bytes s.dirs
    → o.failed ≡ false
    → (disk_bytes o.store.dirs ≤ r.max_bytes)
      ⊎ (All (Settled r o.store) es × ((id : ArtifactId) → GoneOrKept s o.store id))

module _ (r : Request) where
  skip-Reached :
      (e : CacheEntry) (es : List CacheEntry) (total freed : ℕ) (s : Store) (o : Outcome)
      → is_pinned r e ≡ true
      → Reached r es total freed s o
      → Reached r (e ∷ es) total freed s o
  skip-Reached e es total freed s o p ih u b t ok = elim (ih u b.2 t ok) [
    | inl n ↦ inl n
    | inr (a, g) ↦ inr ((inl p, a), g)
  ]

  evict-Reached :
      (e : CacheEntry) (es : List CacheEntry) (total freed : ℕ) (s : Store) (o : Outcome)
      → Reached r es (total - e.bytes) (freed + e.bytes) (evict_one e.id s) o
      → Reached r (e ∷ es) total freed s o
  unfolding evict_one
  evict-Reached e es total freed s o ih u b t ok =
      elim (ih (Distinct-delete e.id s.dirs u) (Backed-delete e.id s.dirs es b.1 b.2)
        (omega (arith, disk_bytes-evict e s u b.0)) ok) [
          | inl n ↦ inl n
          | inr (a, g) ↦
              inr ((inr (gone (g e.id)), a), λ id. GoneOrKept-evict e s o.store id (g id))
        ]
    where
      gone : GoneOrKept (evict_one e.id s) o.store e.id → find e.id o.store.dirs ≡ none
      gone (inl n) = n
      gone (inr k) = k ∙ (find-delete e.id e.id s.dirs ∙ rw (same_refl e.id))

  pub evict_loop-Reached :
      (es : List CacheEntry) (total freed : ℕ) (s : Store)
      → Reached r es total freed s (evict_loop r es total freed s)
  evict_loop-Reached =
      evict_loop_rule r (Reached r) (λ total freed s u b t ok. inr (tt, λ id. inr refl))
        (λ e es total freed s d u b t ok. inl (ground arith))
        (λ e es total freed s o d p ih. skip-Reached e es total freed s o p ih)
        (λ e es total freed s o d p ih. evict-Reached e es total freed s o ih)
        (λ e es total freed s d p q u b t ok. absurd (cc))
