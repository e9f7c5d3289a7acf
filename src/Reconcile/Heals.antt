-- ===== src/Reconcile/Heals.antt =====
-- What a pass does to the bucket and what it reports.
use local_preview.Base.{
  ℕ, suc, ◌+◌, ◌≡◌, ◌⊎◌, inl, inr, refl, true, false, Option, none, some, ◌≤◌, List, [], ◌∷◌, arith,
  ==_iff, length, length-append, any, Bool-cases, Option-cases, find, delete, find-put, find-delete,
  pair_same, pair_same_iff, same_refl, String_comparable, pair_comparable, ◌∙◌, sym, subst,
}
use local_preview.Store.Cache.{ArtifactId}
use local_preview.Reconcile.{
  ObjectInfo, Bucket, World, consistent, save, Report, Verdict, fine, lost, failed, uploaded,
  replaced, note, settle, reconcile_ref, reconcile_refs,
}

-- The bucket has an object for the artifact that the integrity check accepts.
abbrev pub IsHealthy : World → ArtifactId → Bucket → Type 0
IsHealthy w id bucket =
    (info : ObjectInfo) × (find id bucket ≡ some info) × (consistent info (w.resident id) ≡ true)

module _ (w : World) (id : ArtifactId) where
  settle_other :
      (j : ArtifactId) (o local : Option ObjectInfo) (bucket : Bucket)
      → find id bucket ≡ o
      → pair_same id j ≡ false
      → find j (settle w id o local bucket).1 ≡ find j bucket
  unfolding settle save
  settle_other j none none bucket e other = refl
  settle_other j none (some local) bucket e other = ground (arith, find-put id j local bucket)
  settle_other j (some info) none bucket e other = ground arith
  settle_other j (some info) (some local) bucket e other =
      ground (arith, find-delete id j bucket, find-put id j local (delete id bucket))

  settle_absent : (o : Option ObjectInfo) (bucket : Bucket) → (settle w id o none bucket).1 ≡ bucket
  unfolding settle
  settle_absent none bucket = refl
  settle_absent (some info) bucket = ground arith

  settle_fine :
      (info : ObjectInfo) (local : Option ObjectInfo) (bucket : Bucket)
      → consistent info local ≡ true
      → (settle w id (some info) local bucket).1 ≡ bucket
  unfolding settle
  settle_fine info none bucket h = ground arith
  settle_fine info (some local) bucket h = ground arith

  ref_other :
      (j : ArtifactId) (bucket : Bucket)
      → pair_same id j ≡ false
      → find j (reconcile_ref w id bucket).1 ≡ find j bucket
  unfolding reconcile_ref
  ref_other j bucket other = elim (Bool-cases (w.stat_fails id)) [
    | inl f ↦ rw (f, reconcile_ref) refl
    | inr f ↦
        rw (f, reconcile_ref) (settle_other j (find id bucket) (w.resident id) bucket refl other)
  ]

  ref_fine : (bucket : Bucket) → IsHealthy w id bucket → (reconcile_ref w id bucket).1 ≡ bucket
  unfolding reconcile_ref
  ref_fine bucket (info, e, c) = elim (Bool-cases (w.stat_fails id)) [
    | inl f ↦ rw (f, reconcile_ref) refl
    | inr f ↦ rw (f, e, reconcile_ref) (settle_fine info (w.resident id) bucket c)
  ]

  ref_absent : (bucket : Bucket) → w.resident id ≡ none → (reconcile_ref w id bucket).1 ≡ bucket
  unfolding reconcile_ref
  ref_absent bucket n = elim (Bool-cases (w.stat_fails id)) [
    | inl f ↦ rw (f, reconcile_ref) refl
    | inr f ↦ rw (f, n, reconcile_ref) (settle_absent (find id bucket) bucket)
  ]

module _ (w : World) where
  ref-IsHealthy :
      (id j : ArtifactId) (bucket : Bucket)
      → IsHealthy w j bucket
      → IsHealthy w j (reconcile_ref w id bucket).1
  ref-IsHealthy id j bucket h = elim (Bool-cases (pair_same id j)) [
    | inl same ↦
        subst (IsHealthy w j)
          (sym (
            ref_fine w id bucket
              (subst (λ k. IsHealthy w k bucket) (sym ((pair_same_iff id j).0 same)) h)))
          h
    | inr other ↦ (h.0, ref_other w id j bucket other ∙ h.1, h.2)
  ]

  refs-IsHealthy :
      (ids : List ArtifactId) (j : ArtifactId) (rep : Report) (bucket : Bucket)
      → IsHealthy w j bucket
      → IsHealthy w j (reconcile_refs w ids rep bucket).1
  unfolding reconcile_refs
  refs-IsHealthy [] j rep bucket h = h
  refs-IsHealthy (id ∷ ids) j rep bucket h =
      refs-IsHealthy ids j (note id (reconcile_ref w id bucket).0 rep) (reconcile_ref w id bucket).1
        (ref-IsHealthy id j bucket h)

  -- An object without a local copy is as it was after a pass, bad or not: only what can be uploaded
  -- again is deleted.
  pub reconcile_spares :
      (ids : List ArtifactId) (j : ArtifactId) (rep : Report) (bucket : Bucket)
      → w.resident j ≡ none
      → find j (reconcile_refs w ids rep bucket).1 ≡ find j bucket
  unfolding reconcile_refs
  reconcile_spares [] j rep bucket n = refl
  reconcile_spares (id ∷ ids) j rep bucket n =
      reconcile_spares ids j (note id (reconcile_ref w id bucket).0 rep)
        (reconcile_ref w id bucket).1 n
      ∙ elim (Bool-cases (pair_same id j)) [
        | inr other ↦ ref_other w id j bucket other
        | inl same ↦
            rw
              (ref_absent w id bucket
                (subst (λ k. w.resident k ≡ none) (sym ((pair_same_iff id j).0 same)) n))
              refl
      ]

-- No call for the artifact fails, and its local copy, if there is one, has a file with content.
pub record IsReady (w : World) (id : ArtifactId) : Type 0 where
  pub stat : w.stat_fails id ≡ false
  pub delete : w.delete_fails id ≡ false
  pub save : w.save_fails id ≡ false
  pub content :
      (local : ObjectInfo)
      → w.resident id ≡ some local
      → (1 ≤ local.uncompressed_size) × (1 ≤ local.file_count)

module _ (w : World) (id : ArtifactId) (r : IsReady w id) where
  sound : (local : ObjectInfo) → w.resident id ≡ some local → consistent local (some local) ≡ true
  unfolding consistent
  sound local l =
      let c = r.content local l in
      ground (
        arith,
        ==_iff local.uncompressed_size 0,
        ==_iff local.file_count 0,
        ==_iff local.file_count local.file_count,
      )

  find-save :
      (local : ObjectInfo) (bucket : Bucket)
      → find id bucket ≡ none
      → find id (save id local bucket) ≡ some local
  unfolding save
  find-save local bucket e = rw (e, save) (find-put id id local bucket ∙ rw (same_refl id) refl)

  settle_heals :
      (local : ObjectInfo) (bucket : Bucket) (o : Option ObjectInfo)
      → w.resident id ≡ some local
      → find id bucket ≡ o
      → (info : ObjectInfo) × (find id (settle w id o (some local) bucket).1 ≡ some info)
        × (consistent info (some local) ≡ true)
  unfolding settle
  settle_heals local bucket none l e = (local, rw r.save (find-save local bucket e), sound local l)
  settle_heals local bucket (some info) l e = elim (Bool-cases (consistent info (some local))) [
    | inl ok ↦ (info, rw ok e, ok)
    | inr bad ↦ (
      local,
      rw (bad, r.delete, r.save)
          (find-save local (delete id bucket) (find-delete id id bucket ∙ rw (same_refl id) refl)),
      sound local l,
    )
  ]

  ref_heals :
      (local : ObjectInfo) (bucket : Bucket)
      → w.resident id ≡ some local
      → IsHealthy w id (reconcile_ref w id bucket).1
  unfolding reconcile_ref
  ref_heals local bucket l =
      rw (r.stat, l, reconcile_ref) (settle_heals local bucket (find id bucket) l refl)

-- After a pass, an artifact that it looked at has an object that the integrity check accepts, or has
-- no local copy, when no call for this artifact fails and its local copy, if any, has a file with
-- content; the calls for the other artifacts of the pass may fail.
pub reconcile_heals :
    (w : World) (ids : List ArtifactId) (j : ArtifactId) (rep : Report) (bucket : Bucket)
    → any (λ id. pair_same id j) ids ≡ true
    → IsReady w j
    → IsHealthy w j (reconcile_refs w ids rep bucket).1 ⊎ (w.resident j ≡ none)
unfolding reconcile_refs
reconcile_heals w [] j rep bucket h r = absurd (ground arith)
reconcile_heals w (id ∷ ids) j rep bucket h r = elim (Bool-cases (pair_same id j)) [
  | inl same ↦ elim (Option-cases (w.resident j)) [
    | inl n ↦ inr n
    | inr (local, l) ↦ inl (
        refs-IsHealthy w ids j (note id (reconcile_ref w id bucket).0 rep)
          (reconcile_ref w id bucket).1
          (subst (λ k. IsHealthy w j (reconcile_ref w k bucket).1)
            (sym ((pair_same_iff id j).0 same)) (ref_heals w j r local bucket l)))
  ]
  | inr other ↦
      reconcile_heals w ids j (note id (reconcile_ref w id bucket).0 rep)
        (reconcile_ref w id bucket).1 (ground arith) r
]

-- The counters of a report that say how a reference was settled
abbrev pub counted : Report → ℕ
counted rep = rep.already_ok + rep.persisted + rep.repaired + rep.gaps + rep.errors

note-counted :
    (id : ArtifactId) (v : Verdict) (rep : Report)
    → ((note id v rep).checked ≡ rep.checked)
      × (counted (note id v rep) ≡ suc (counted rep))
      × (length rep.gap_keys ≡ rep.gaps → length (note id v rep).gap_keys ≡ (note id v rep).gaps)
unfolding note
note-counted id fine rep = (refl, omega arith, λ h. h)
note-counted id lost rep =
    (refl, omega arith, λ h. omega (arith, length-append rep.gap_keys (id ∷ [])))
note-counted id failed rep = (refl, omega arith, λ h. h)
note-counted id uploaded rep = (refl, omega arith, λ h. h)
note-counted id replaced rep = (refl, omega arith, λ h. h)

-- A pass counts each of its references exactly once, as fine, uploaded, replaced, a gap or an error,
-- and names each gap.
pub reconcile-counted :
    (w : World) (ids : List ArtifactId) (rep : Report) (bucket : Bucket)
    → length rep.gap_keys ≡ rep.gaps
    → (counted (reconcile_refs w ids rep bucket).0 ≡ counted rep + length ids)
      × (length (reconcile_refs w ids rep bucket).0.gap_keys
          ≡ (reconcile_refs w ids rep bucket).0.gaps)
unfolding reconcile_refs
reconcile-counted w [] rep bucket h = (omega arith, h)
reconcile-counted w (id ∷ ids) rep bucket h =
    let n = note-counted id (reconcile_ref w id bucket).0 rep in
    let rest =
      reconcile-counted w ids (note id (reconcile_ref w id bucket).0 rep)
        (reconcile_ref w id bucket).1 (n.2 h) in
    (omega arith, rest.1)
