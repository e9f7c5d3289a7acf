-- ===== src/Store/Cache.antt =====
-- internal/store/cache.go: which artifact directories the local cache gives up. The directories of
-- artifactsDir are a table from an artifact side to its modification time and size; the order in
-- which it lists them stands for the directory walk. Errors of ReadDir and Info are not modelled,
-- and what RemoveAll leaves of a directory is an argument. Times are nanoseconds. Go's sort is
-- unstable; an insertion sort by the same comparison stands for it.
pub mod Rule
pub mod Backed
pub mod Pinned
pub mod Watermark
pub mod Reached
pub mod Accounting
mod Examples
use local_preview.Base.{
  ℕ, ◌+◌, ◌-◌, String, Bool, true, false, ◌&&◌, ◌||◌, Option, none, some, List, [], ◌∷◌, ◌==◌, ltb,
  leb, if◌then◌else◌, str_eq, Table, find, put, delete, String_comparable, pair_comparable,
}

-- (repo, side, hash), which also names the directory; cacheKey is as injective as this triple for
-- names without a NUL byte.
abbrev pub ArtifactId : Type 0
ArtifactId = String × (String × String)

abbrev pub hash_of : ArtifactId → String
hash_of (repo, (side, hash)) = hash

pub record Dir : Type 0 where
  pub mtime : ℕ
  pub size : ℕ

pub record Store : Type 0 where
  pub has_tier : Bool
  pub dirs : Table ArtifactId Dir
  pub accessed : Table ArtifactId ℕ
  pub size_cache : Table ArtifactId Dir

-- cacheEntry
pub record CacheEntry : Type 0 where
  pub id : ArtifactId
  pub bytes : ℕ
  pub born : ℕ
  pub recency : ℕ

-- NoteAccess
unfoldable pub note_access : ArtifactId → ℕ → Store → Store
note_access id now s =
    if str_eq (hash_of id) "" then s else record s { accessed = put id now s.accessed }

-- if at, ok := s.accessed[key]; ok && at.After(recency) { recency = at }
abbrev pub recency_of : Option ℕ → ℕ → ℕ
recency_of none born = born
recency_of (some at) born = if ltb born at then at else born

-- cachedDirSize: the memo counts while the modification time is the same.
unfoldable pub cached_dir_size : Option Dir → Dir → ℕ
cached_dir_size none d = d.size
cached_dir_size (some e) d = if e.mtime == d.mtime then e.size else d.size

-- The entry and the memo that residentArtifacts makes of one directory.
pub entry_of : Store → ArtifactId → Dir → CacheEntry
entry_of s id d = record {
  id = id;
  bytes = cached_dir_size (find id s.size_cache) d;
  born = d.mtime;
  recency = recency_of (find id s.accessed) d.mtime;
}

-- residentArtifacts: the entries
pub resident_artifacts : Store → Table ArtifactId Dir → List CacheEntry
unfolding entry_of
resident_artifacts s [] = []
resident_artifacts s ((id, d) ∷ m) = entry_of s id d ∷ resident_artifacts s m

-- residentArtifacts: the memo that it leaves behind
pub memoized : Table ArtifactId Dir → Store → Store
unfolding cached_dir_size
memoized [] s = s
memoized ((id, d) ∷ m) s = memoized m (record s {
  size_cache =
      put id (record { mtime = d.mtime; size = cached_dir_size (find id s.size_cache) d })
        s.size_cache;
})

-- for _, e := range entries { total += e.bytes }
abbrev pub total_bytes : List CacheEntry → ℕ
total_bytes [] = 0
total_bytes (e ∷ es) = e.bytes + total_bytes es

-- ResidentArtifactBytes
unfoldable pub resident_artifact_bytes : Store → ℕ
unfolding resident_artifacts
resident_artifact_bytes s = total_bytes (resident_artifacts s s.dirs)

-- sort.Slice(entries, recency before)
pub insert_entry : CacheEntry → List CacheEntry → List CacheEntry
insert_entry e [] = e ∷ []
insert_entry e (f ∷ fs) = if ltb f.recency e.recency then f ∷ insert_entry e fs else e ∷ f ∷ fs

pub sort_entries : List CacheEntry → List CacheEntry
unfolding insert_entry
sort_entries [] = []
sort_entries (e ∷ es) = insert_entry e (sort_entries es)

-- What EvictCacheToWatermark is called with, and what it asks of the world.
pub record Request : Type 0 where
  pub max_bytes : ℕ
  pub min_age : ℕ
  pub protect : Option (ArtifactId → Bool)
  pub now : ℕ
  -- RemoveAll: none when all of the directory is gone, or what an error leaves of it
  pub removal : ArtifactId → Dir → Option Dir

abbrev pub is_protected : Option (ArtifactId → Bool) → ArtifactId → Bool
is_protected none id = false
is_protected (some f) id = f id

-- minAge > 0 && e.born.After(cutoff), or the caller pins it
abbrev pub is_pinned : Request → CacheEntry → Bool
is_pinned r e = ltb 0 r.min_age && ltb r.now (e.born + r.min_age) || is_protected r.protect e.id

pub record Outcome : Type 0 where
  pub freed : ℕ
  pub failed : Bool
  pub store : Store

-- What is left of an artifact side after RemoveAll and the two deletes.
unfoldable pub evict_one : ArtifactId → Store → Store
evict_one id s = record s {
  dirs = delete id s.dirs;
  accessed = delete id s.accessed;
  size_cache = delete id s.size_cache;
}

-- What RemoveAll leaves on the disk when it fails.
abbrev pub leftover : Request → ArtifactId → Option Dir → Option Dir
leftover r id none = none
leftover r id (some d) = r.removal id d

abbrev pub with_leftover : ArtifactId → Dir → Store → Store
with_leftover id d s = record s { dirs = put id d s.dirs }

-- The loop over the sorted entries.
unfoldable pub evict_loop : Request → List CacheEntry → ℕ → ℕ → Store → Outcome
evict_loop r [] total freed s = record { freed = freed; failed = false; store = s }
evict_loop r (e ∷ es) total freed s =
    let skipped = evict_loop r es total freed s in
    let evicted = evict_loop r es (total - e.bytes) (freed + e.bytes) (evict_one e.id s) in
    if leb total r.max_bytes
    then record { freed = freed; failed = false; store = s }
    else if is_pinned r e
    then skipped
    else elim (leftover r e.id (find e.id s.dirs)) [
      | none ↦ evicted
      | some d ↦ record { freed = freed; failed = true; store = with_leftover e.id d s }
    ]

-- EvictCacheToWatermark
pub evict_cache_to_watermark : Request → Store → Outcome
unfolding resident_artifacts memoized sort_entries evict_loop
evict_cache_to_watermark r s =
    if s.has_tier
    then (let entries = resident_artifacts s s.dirs in
        let swept = memoized s.dirs s in
        if leb (total_bytes entries) r.max_bytes
        then record { freed = 0; failed = false; store = swept }
        else evict_loop r (sort_entries entries) (total_bytes entries) 0 swept)
    else record { freed = 0; failed = false; store = s }
