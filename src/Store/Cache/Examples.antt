-- ===== src/Store/Cache/Examples.antt =====
-- Evictions from a cache of three artifact sides, the oldest of them pinned.
use local_preview.Base.{
  none, if◌then◌else◌, arith, ◌/◌, String, String_comparable, pair_comparable, ◌+◌, ◌≤◌, ◌≡◌, ◌⊎◌,
  refl, true, false, some, [], ◌∷◌, str_eq, find, put, delete,
}
use local_preview.Store.Cache.{
  ArtifactId, Dir, Store, Request, hash_of, resident_artifacts, entry_of, memoized, cached_dir_size,
  insert_entry, sort_entries, evict_one, evict_loop, evict_cache_to_watermark,
}
use local_preview.Store.Cache.Backed.{disk_bytes, Distinct, Coherent}
use local_preview.Store.Cache.Pinned.{IsPinned, eviction_spares_pinned}
use local_preview.Store.Cache.Reached.{eviction_reaches_watermark}
use local_preview.Store.Cache.Accounting.{Shrinks, eviction_balance}

abbrev side : String → ArtifactId
side hash = ("app", ("backend", hash))

abbrev stored : Store
stored = record {
  has_tier = true;
  dirs =
      (side "a", record { mtime = 100; size = 40 })
      ∷ (side "b", record { mtime = 200; size = 30 })
      ∷ (side "c", record { mtime = 300; size = 20 })
      ∷ [];
  accessed = [];
  size_cache = (side "b", record { mtime = 200; size = 30 }) ∷ [];
}

abbrev request : Request
request = record {
  max_bytes = 60;
  min_age = 10;
  protect = some (λ id. str_eq (hash_of id) "a");
  now = 1000;
  removal = λ id d. none;
}

stored_Distinct : Distinct stored.dirs
unfolding find
stored_Distinct = (refl, (refl, (refl, tt)))

stored_Coherent : Coherent stored.size_cache stored.dirs
unfolding find
stored_Coherent = (tt, ((λ e. refl), (tt, tt)))

no_failure : (evict_cache_to_watermark request stored).failed ≡ false
unfolding evict_cache_to_watermark resident_artifacts entry_of cached_dir_size memoized sort_entries
    insert_entry evict_loop evict_one find put delete
no_failure = refl

first_stored : find (side "a") stored.dirs ≡ some (record { mtime = 100; size = 40 })
unfolding find
first_stored = refl

-- RemoveAll gives up on the second of the directories half of it left.
abbrev stuck : Request
stuck = record request {
  max_bytes = 45;
  removal = λ id d. if str_eq (hash_of id) "c" then some (record d { size = d.size / 2 }) else none;
}

stuck-Shrinks : Shrinks stuck
stuck-Shrinks (repo, (s, hash)) d left e = ground arith

eviction_balance_example :
    ((disk_bytes (evict_cache_to_watermark stuck stored).store.dirs
          + (evict_cache_to_watermark stuck stored).freed
        ≡ 90)
      ⊎ ((evict_cache_to_watermark stuck stored).failed ≡ true))
    × (disk_bytes (evict_cache_to_watermark stuck stored).store.dirs
          + (evict_cache_to_watermark stuck stored).freed
        ≤ 90)
eviction_balance_example =
    eviction_balance stuck stored stored_Distinct stored_Coherent stuck-Shrinks

eviction_spares_pinned_example :
    find (side "a") (evict_cache_to_watermark request stored).store.dirs
    ≡ some (record { mtime = 100; size = 40 })
eviction_spares_pinned_example =
    eviction_spares_pinned request stored (side "a") (record { mtime = 100; size = 40 })
      stored_Distinct first_stored refl

eviction_reaches_watermark_example :
    (disk_bytes (evict_cache_to_watermark request stored).store.dirs ≤ 60)
    ⊎ ((id : ArtifactId) (d : Dir)
        → find id (evict_cache_to_watermark request stored).store.dirs ≡ some d
        → IsPinned request id d)
eviction_reaches_watermark_example =
    eviction_reaches_watermark request stored refl stored_Distinct stored_Coherent no_failure
