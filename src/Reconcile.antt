-- ===== src/Reconcile.antt =====
-- internal/reconcile/reconcile.go: the pass that makes the durable tier hold every live artifact, on
-- the tier of internal/s3store. The bucket is a table from an artifact side to the metadata of its
-- object; what is on the local disk and which calls fail are arguments. A cancelled context is not
-- modelled. A deduplication key "repo/side/hash" is the triple, since no part has a slash.
pub mod Live
pub mod Heals
mod Examples
use local_preview.Base.{
  ℕ, suc, ◌+◌, String, Bool, true, false, ◌&&◌, ◌||◌, not, Option, none, some, List, [], ◌∷◌, ◌++◌,
  ◌==◌, if◌then◌else◌, length, any, str_eq, Table, find, put, delete, pair_same, String_comparable,
  pair_comparable,
}
use local_preview.Db.Deploys.{ArtifactRef, DeployRow, is_ready}
use local_preview.Store.Cache.{ArtifactId}

-- add of collectLive, on the list so far
unfoldable pub add_ref : String → String → String → List ArtifactId → List ArtifactId
add_ref repo side hash out =
    if str_eq hash ""
    then out
    else if any (λ r. pair_same r (repo, (side, hash))) out
    then out
    else out ++ (repo, (side, hash)) ∷ []

unfoldable pub add_artifacts : String → Table String ArtifactRef → List ArtifactId → List ArtifactId
unfolding add_ref
add_artifacts repo [] out = out
add_artifacts repo ((name, art) ∷ arts) out =
    add_artifacts repo arts (add_ref repo "dl" art.hash out)

-- The body of collectLive's loop
unfoldable pub add_row : DeployRow → List ArtifactId → List ArtifactId
unfolding add_artifacts
add_row row out =
    if is_ready row.status
    then add_artifacts row.repo_name row.artifacts
        (add_ref row.repo_name "be" row.be_hash (add_ref row.repo_name "fe" row.fe_hash out))
    else out

-- collectLive, from the references so far
unfoldable pub collect_from : List DeployRow → List ArtifactId → List ArtifactId
unfolding add_row
collect_from [] out = out
collect_from (row ∷ rows) out = collect_from rows (add_row row out)

-- s3store.ObjectInfo, and equally what ResidentSide measures of a local directory
pub record ObjectInfo : Type 0 where
  pub uncompressed_size : ℕ
  pub file_count : ℕ

abbrev pub Bucket : Type 0
Bucket = Table ArtifactId ObjectInfo

pub record World : Type 0 where
  pub resident : ArtifactId → Option ObjectInfo
  pub stat_fails : ArtifactId → Bool
  pub delete_fails : ArtifactId → Bool
  pub save_fails : ArtifactId → Bool

-- consistent
unfoldable pub consistent : ObjectInfo → Option ObjectInfo → Bool
consistent info none = not (info.uncompressed_size == 0 || info.file_count == 0)
consistent info (some local) =
    not (info.uncompressed_size == 0 || info.file_count == 0) && info.file_count == local.file_count

-- Save of internal/s3store/s3store.go: an object that is there stays.
unfoldable pub save : ArtifactId → ObjectInfo → Bucket → Bucket
save id local bucket = elim (find id bucket) [ none ↦ put id local bucket | some info ↦ bucket ]

pub record Report : Type 0 where
  pub checked : ℕ
  pub already_ok : ℕ
  pub persisted : ℕ
  pub repaired : ℕ
  pub gaps : ℕ
  pub gap_keys : List ArtifactId
  pub errors : ℕ

abbrev pub new_report : ℕ → Report
new_report checked = record {
  checked = checked;
  already_ok = 0;
  persisted = 0;
  repaired = 0;
  gaps = 0;
  gap_keys = [];
  errors = 0;
}

pub data Verdict : Type 0 where
  fine lost failed uploaded replaced : Verdict

-- The counter that one reference raises
unfoldable pub note : ArtifactId → Verdict → Report → Report
note id fine rep = record rep { already_ok = suc rep.already_ok }
note id lost rep = record rep { gaps = suc rep.gaps; gap_keys = rep.gap_keys ++ id ∷ [] }
note id failed rep = record rep { errors = suc rep.errors }
note id uploaded rep = record rep { persisted = suc rep.persisted }
note id replaced rep = record rep { repaired = suc rep.repaired }

-- What is done about an object that is missing, or about one that is bad
abbrev pub upload : World → ArtifactId → ObjectInfo → Bucket → Verdict × Bucket
upload w id local bucket =
    if w.save_fails id then (failed, bucket) else (uploaded, save id local bucket)

abbrev pub replace : World → ArtifactId → ObjectInfo → Bucket → Verdict × Bucket
replace w id local bucket =
    if w.delete_fails id
    then (failed, bucket)
    else if w.save_fails id
    then (failed, delete id bucket)
    else (replaced, save id local (delete id bucket))

-- Tests in the order of the loop's body, after Stat
unfoldable pub settle :
    World → ArtifactId → Option ObjectInfo → Option ObjectInfo → Bucket → Verdict × Bucket
unfolding consistent save
settle w id none none bucket = (lost, bucket)
settle w id none (some local) bucket = upload w id local bucket
settle w id (some info) none bucket =
    if consistent info none then (fine, bucket) else (lost, bucket)
settle w id (some info) (some local) bucket =
    if consistent info (some local) then (fine, bucket) else replace w id local bucket

-- The body of reconcile's loop
unfoldable pub reconcile_ref : World → ArtifactId → Bucket → Verdict × Bucket
unfolding settle
reconcile_ref w id bucket =
    if w.stat_fails id
    then (failed, bucket)
    else settle w id (find id bucket) (w.resident id) bucket

unfoldable pub reconcile_refs : World → List ArtifactId → Report → Bucket → Report × Bucket
unfolding reconcile_ref note
reconcile_refs w [] rep bucket = (rep, bucket)
reconcile_refs w (id ∷ ids) rep bucket =
    reconcile_refs w ids (note id (reconcile_ref w id bucket).0 rep) (reconcile_ref w id bucket).1

-- Reconcile
abbrev pub reconcile : World → List DeployRow → Bucket → Report × Bucket
reconcile w rows bucket =
    reconcile_refs w (collect_from rows []) (new_report (length (collect_from rows []))) bucket
