-- ===== src/Store/Cache/Backed.antt =====
-- The entries that the cache walk makes are backed by the directories on the disk.
use local_preview.Base.{
  ℕ, ◌+◌, ◌≡◌, refl, subst, inl, inr, ◌∙◌, false, Option, none, some, List, [], ◌∷◌, arith, ltb,
  All, Bool-cases, sym, same_refl, ◌==◌, ==_iff, Table, find, delete, find-delete,
  String_comparable, pair_same, pair_same_iff, pair_comparable,
}
use local_preview.Store.Cache.{
  ArtifactId, Dir, Store, CacheEntry, cached_dir_size, resident_artifacts, insert_entry,
  sort_entries, evict_one,
}

-- The bytes that the artifact directories occupy.
abbrev pub disk_bytes : Table ArtifactId Dir → ℕ
disk_bytes [] = 0
disk_bytes ((id, d) ∷ m) = d.size + disk_bytes m

-- Every directory is listed once.
abbrev pub Distinct : Table ArtifactId Dir → Type 0
Distinct [] = Unit
Distinct ((id, d) ∷ m) = (find id m ≡ none) × Distinct m

-- A memo that a directory's modification time confirms has the directory's size.
abbrev pub Confirms : Option Dir → Dir → Type 0
Confirms none d = Unit
Confirms (some e) d = e.mtime ≡ d.mtime → e.size ≡ d.size

abbrev pub Coherent : Table ArtifactId Dir → Table ArtifactId Dir → Type 0
Coherent memo [] = Unit
Coherent memo ((id, d) ∷ m) = Confirms (find id memo) d × Coherent memo m

delete_absent : (id : ArtifactId) (m : Table ArtifactId Dir) → find id m ≡ none → delete id m ≡ m
unfolding find delete
delete_absent id [] h = refl
delete_absent id ((k, d) ∷ m) h = ground (arith, delete_absent id m)

disk_bytes-delete :
    (id : ArtifactId) (d : Dir) (m : Table ArtifactId Dir)
    → Distinct m
    → find id m ≡ some d
    → disk_bytes (delete id m) + d.size ≡ disk_bytes m
unfolding find delete
disk_bytes-delete id d [] u h = cc
disk_bytes-delete id d ((k, e) ∷ m) u h = elim (Bool-cases (pair_same k id)) [
  | inl same ↦
      let absent : find id m ≡ none =
        subst (λ i. find i m ≡ none) ((pair_same_iff k id).0 same) u.0 in
      rw same (ground (arith, delete_absent id m absent))
  | inr other ↦ rw other (omega (arith, disk_bytes-delete id d m u.1 (ground arith)))
]

pub Distinct-delete :
    (id : ArtifactId) (m : Table ArtifactId Dir) → Distinct m → Distinct (delete id m)
unfolding delete
Distinct-delete id [] u = tt
Distinct-delete id ((k, d) ∷ m) u = ground (arith, find-delete id k m, Distinct-delete id m u.1)

-- The entry is of a directory on the disk, with its size.
abbrev pub BackedBy : Table ArtifactId Dir → CacheEntry → Type 0
BackedBy m e = (d : Dir) × (find e.id m ≡ some d) × (d.size ≡ e.bytes)

-- The entries are of different directories on the disk, each with its size.
abbrev pub Backed : Table ArtifactId Dir → List CacheEntry → Type 0
Backed m [] = Unit
Backed m (e ∷ es) = BackedBy m e × All (λ f. pair_same e.id f.id ≡ false) es × Backed m es

pub Backed-delete :
    (id : ArtifactId) (m : Table ArtifactId Dir) (es : List CacheEntry)
    → All (λ f. pair_same id f.id ≡ false) es
    → Backed m es
    → Backed (delete id m) es
Backed-delete id m [] a b = tt
Backed-delete id m (e ∷ es) a b =
    ((b.0.0, (find-delete id e.id m ∙ rw a.0 b.0.1), b.0.2), b.1, Backed-delete id m es a.1 b.2)

pub disk_bytes-evict :
    (e : CacheEntry) (s : Store)
    → Distinct s.dirs
    → BackedBy s.dirs e
    → disk_bytes (evict_one e.id s).dirs + e.bytes ≡ disk_bytes s.dirs
unfolding evict_one
disk_bytes-evict e s u (d, f, z) = omega (arith, disk_bytes-delete e.id d s.dirs u f)

-- The entries of the walk are backed by the directories.
pub size_confirmed :
    (memo : Option Dir) (d : Dir) → Confirms memo d → d.size ≡ cached_dir_size memo d
unfolding cached_dir_size
size_confirmed none d c = refl
size_confirmed (some e) d c = elim (Bool-cases (e.mtime == d.mtime)) [
  | inl same ↦ rw same (sym (c ((==_iff e.mtime d.mtime).0 same)))
  | inr other ↦ rw other
]

pub pair_same_sym : (a b : ArtifactId) → pair_same a b ≡ false → pair_same b a ≡ false
pair_same_sym a b h = ground (arith, pair_same_iff a b, pair_same_iff b a)

pub absent_differs :
    (s : Store) (id : ArtifactId) (m : Table ArtifactId Dir)
    → find id m ≡ none
    → All (λ f. pair_same id f.id ≡ false) (resident_artifacts s m)
unfolding find resident_artifacts
absent_differs s id [] h = tt
absent_differs s id ((k, d) ∷ m) h = elim (Bool-cases (pair_same k id)) [
  | inl same ↦ absurd (ground arith)
  | inr other ↦ (pair_same_sym k id other, absent_differs s id m (ground arith))
]

Backed-cons :
    (id : ArtifactId) (d : Dir) (m : Table ArtifactId Dir) (es : List CacheEntry)
    → All (λ f. pair_same id f.id ≡ false) es
    → Backed m es
    → Backed ((id, d) ∷ m) es
unfolding find
Backed-cons id d m [] a b = tt
Backed-cons id d m (e ∷ es) a b = ((b.0.0, rw a.0 b.0.1, b.0.2), b.1, Backed-cons id d m es a.1 b.2)

pub Backed-resident :
    (s : Store) (m : Table ArtifactId Dir)
    → Distinct m
    → Coherent s.size_cache m
    → Backed m (resident_artifacts s m)
unfolding resident_artifacts find
Backed-resident s [] u c = tt
Backed-resident s ((id, d) ∷ m) u c = (
  (d, rw (same_refl id) refl, size_confirmed (find id s.size_cache) d c.0),
  absent_differs s id m u.0,
  Backed-cons id d m (resident_artifacts s m) (absent_differs s id m u.0)
      (Backed-resident s m u.1 c.1),
)

All-insert_entry :
    (P : CacheEntry → Type 0) (e : CacheEntry) (es : List CacheEntry)
    → P e
    → All P es
    → All P (insert_entry e es)
unfolding insert_entry
All-insert_entry P e [] p h = (p, tt)
All-insert_entry P e (f ∷ fs) p h = elim (Bool-cases (ltb f.recency e.recency)) [
  | inl older ↦ rw older (h.0, All-insert_entry P e fs p h.1)
  | inr newer ↦ rw newer (p, h)
]

pub All-sort_entries :
    (P : CacheEntry → Type 0) (es : List CacheEntry) → All P es → All P (sort_entries es)
unfolding sort_entries
All-sort_entries P [] h = tt
All-sort_entries P (e ∷ es) h =
    All-insert_entry P e (sort_entries es) h.0 (All-sort_entries P es h.1)

Backed-insert :
    (m : Table ArtifactId Dir) (e : CacheEntry) (es : List CacheEntry)
    → BackedBy m e
    → All (λ f. pair_same e.id f.id ≡ false) es
    → Backed m es
    → Backed m (insert_entry e es)
unfolding insert_entry
Backed-insert m e [] b a h = (b, tt, tt)
Backed-insert m e (f ∷ fs) b a h = elim (Bool-cases (ltb f.recency e.recency)) [
  | inl older ↦ rw older (
    h.0,
    All-insert_entry (λ g. pair_same f.id g.id ≡ false) e fs (pair_same_sym e.id f.id a.0) h.1,
    Backed-insert m e fs b a.1 h.2,
  )
  | inr newer ↦ rw newer (b, a, h)
]

pub Backed-sort :
    (m : Table ArtifactId Dir) (es : List CacheEntry) → Backed m es → Backed m (sort_entries es)
unfolding sort_entries
Backed-sort m [] h = tt
Backed-sort m (e ∷ es) h =
    Backed-insert m e (sort_entries es) h.0
      (All-sort_entries (λ f. pair_same e.id f.id ≡ false) es h.1) (Backed-sort m es h.2)
