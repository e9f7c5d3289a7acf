-- ===== src/Db/Deploys/Valid.antt =====
-- The deploys table under any sequence of the operations of internal/db/deploys.go: ids fall along
-- the table and are never reused, and no repo has two deploys of one sha or one short sha.
use local_preview.Base.{
  ℕ, ap, ◌≤◌, ◌<◌, ◌≡◌, refl, String, Bool, true, false, ◌∙◌, ◌==◌, if◌then◌else◌, List, [], ◌∷◌,
  arith, Table,
}
use local_preview.Db.Deploys.{
  Database, DeployRow, DeployMeta, ArtifactRef, Sha, ok, violates_unique, create_deploy, set_row,
  update_deploy, reset_deploy, set_deploy_building, set_deploy_hashes, set_deploy_artifacts,
  set_deploy_ready, set_deploy_failed, set_deploy_evicted, without_id, delete_deploy,
  set_branch_alias,
}
use local_preview.Db.Deploys.Create.{Created, create_deploy-Created}

abbrev pub Below : ℕ → List DeployRow → Type 0
Below n [] = Unit
Below n (d ∷ ds) = (d.id < n) × Below d.id ds

abbrev pub Unique : List DeployRow → Type 0
Unique [] = Unit
Unique (d ∷ ds) = (violates_unique d.repo_id d.sha d.short_sha ds ≡ false) × Unique ds

pub record IsValid (db : Database) : Type 0 where
  pub ordered : Below db.next_id db.deploys
  pub unique : Unique db.deploys

-- A change of a row that leaves alone what the constraints read.
record KeepsIdentity (f : DeployRow → DeployRow) : Type 0 where
  id : (d : DeployRow) → (f d).id ≡ d.id
  repo_id : (d : DeployRow) → (f d).repo_id ≡ d.repo_id
  sha : (d : DeployRow) → (f d).sha ≡ d.sha
  short_sha : (d : DeployRow) → (f d).short_sha ≡ d.short_sha

module _ (f : DeployRow → DeployRow) (k : KeepsIdentity f) (id : ℕ) where
  set_row-Below : (n : ℕ) (ds : List DeployRow) → Below n ds → Below n (set_row id f ds)
  unfolding set_row
  set_row-Below n [] b = tt
  set_row-Below n (d ∷ ds) b = ground (arith, k.id d, set_row-Below d.id ds b.1)

  violates-set_row :
      (r : ℕ) (sha short : Sha) (ds : List DeployRow)
      → violates_unique r sha short (set_row id f ds) ≡ violates_unique r sha short ds
  unfolding set_row
  violates-set_row r sha short [] = refl
  violates-set_row r sha short (d ∷ ds) =
      ground (arith, k.repo_id d, k.sha d, k.short_sha d, violates-set_row r sha short ds)

  set_row-Unique : (ds : List DeployRow) → Unique ds → Unique (set_row id f ds)
  unfolding set_row
  set_row-Unique [] u = tt
  set_row-Unique (d ∷ ds) u = (head (d.id == id), set_row-Unique ds u.1)
    where
      head :
          (b : Bool)
          → violates_unique
              (if b then f d else d).repo_id
              (if b then f d else d).sha
              (if b then f d else d).short_sha
              (set_row id f ds)
            ≡ false
      head true = rw (k.repo_id d, k.sha d, k.short_sha d) (violates-set_row _ _ _ ds ∙ u.0)
      head false = violates-set_row d.repo_id d.sha d.short_sha ds ∙ u.0

abbrev keys : DeployRow → ℕ × ℕ × Sha × Sha
keys d = (d.id, d.repo_id, d.sha, d.short_sha)

module _ (f : DeployRow → DeployRow) (same : (d : DeployRow) → keys (f d) ≡ keys d) (id : ℕ) where
  kept : KeepsIdentity f
  kept = record {
    id = λ d. ap (λ (k : ℕ × ℕ × Sha × Sha). k.0) (same d);
    repo_id = λ d. ap (λ (k : ℕ × ℕ × Sha × Sha). k.1) (same d);
    sha = λ d. ap (λ (k : ℕ × ℕ × Sha × Sha). k.2) (same d);
    short_sha = λ d. ap (λ (k : ℕ × ℕ × Sha × Sha). k.3) (same d);
  }

  update_deploy-IsValid :
      (db db' : Database) → update_deploy id f db ≡ ok db' → IsValid db → IsValid db'
  unfolding update_deploy
  update_deploy-IsValid db db' h v = ground (
    arith,
    set_row-Below f kept id db.next_id db.deploys v.ordered,
    set_row-Unique f kept id db.deploys v.unique,
  )

violates-without :
    (r id : ℕ) (sha short : Sha) (ds : List DeployRow)
    → violates_unique r sha short ds ≡ false
    → violates_unique r sha short (without_id id ds) ≡ false
violates-without r id sha short [] h = refl
violates-without r id sha short (d ∷ ds) h = ground (arith, violates-without r id sha short ds)

Below-mono : (m n : ℕ) (ds : List DeployRow) → m ≤ n → Below m ds → Below n ds
Below-mono m n [] h b = tt
Below-mono m n (d ∷ ds) h b = (omega arith, b.1)

without-Below : (id n : ℕ) (ds : List DeployRow) → Below n ds → Below n (without_id id ds)
without-Below id n [] b = tt
without-Below id n (d ∷ ds) b =
    ground (arith, without-Below id d.id ds b.1, Below-mono d.id n (without_id id ds))

without-Unique : (id : ℕ) (ds : List DeployRow) → Unique ds → Unique (without_id id ds)
without-Unique id [] u = tt
without-Unique id (d ∷ ds) u =
    ground (arith, without-Unique id ds u.1, violates-without d.repo_id id d.sha d.short_sha ds u.0)

-- One operation on the tables that reported no error.
pub data Step (db db' : Database) : Type 0 where
  create :
      (repo_id : ℕ) (repo_name : String) (sha : Sha) (meta : DeployMeta) (now : String)
      (row : DeployRow)
      → create_deploy db repo_id repo_name sha meta now ≡ ok (row, db')
      → Step db db'
  reset : (id : ℕ) → reset_deploy id db ≡ ok db' → Step db db'
  build : (id : ℕ) → set_deploy_building id db ≡ ok db' → Step db db'
  hash :
      (id : ℕ) (fe_hash be_hash project_dir : String)
      → set_deploy_hashes id fe_hash be_hash project_dir db ≡ ok db'
      → Step db db'
  publish :
      (id : ℕ) (refs : Table String ArtifactRef)
      → set_deploy_artifacts id refs db ≡ ok db'
      → Step db db'
  finish : (id : ℕ) → set_deploy_ready id db ≡ ok db' → Step db db'
  fail : (id : ℕ) (msg : String) → set_deploy_failed id msg db ≡ ok db' → Step db db'
  evict : (id : ℕ) → set_deploy_evicted id db ≡ ok db' → Step db db'
  remove : (id : ℕ) → db' ≡ delete_deploy id db → Step db db'
  alias :
      (repo_id : ℕ) (branch : String) (id : ℕ)
      → db' ≡ set_branch_alias repo_id branch id db
      → Step db db'

pub data Steps (db : Database) : Database → Type 0 where
  here : Steps db db
  next : {db' db'' : Database} → Steps db db' → Step db' db'' → Steps db db''

Created-IsValid :
    {db db' : Database} {repo_id from until : ℕ} {sha : Sha} {row : DeployRow}
    → Created db repo_id sha from until row db'
    → IsValid db
    → IsValid db'
Created-IsValid {db} {db'} {repo_id} {from} {until} {sha} {row} c v = rw c.stored (record {
  ordered = rw c.identity.0 (omega arith, v.ordered);
  unique = (rw (c.identity.1, c.identity.2, c.short) c.free, v.unique);
})

-- An operation that succeeds keeps the table valid.
pub Step-IsValid : {db db' : Database} → Step db db' → IsValid db → IsValid db'
unfolding reset_deploy set_deploy_building set_deploy_hashes set_deploy_artifacts set_deploy_ready
    set_deploy_failed set_deploy_evicted delete_deploy set_branch_alias
Step-IsValid {db} {db'} (create repo_id repo_name sha meta now row h) v =
    Created-IsValid (create_deploy-Created db repo_id repo_name sha meta now row db' h) v
Step-IsValid {db} {db'} (reset id h) v = update_deploy-IsValid _ (λ d. refl) id db db' h v
Step-IsValid {db} {db'} (build id h) v = update_deploy-IsValid _ (λ d. refl) id db db' h v
Step-IsValid {db} {db'} (hash id fe be dir h) v = update_deploy-IsValid _ (λ d. refl) id db db' h v
Step-IsValid {db} {db'} (publish id refs h) v = update_deploy-IsValid _ (λ d. refl) id db db' h v
Step-IsValid {db} {db'} (finish id h) v = update_deploy-IsValid _ (λ d. refl) id db db' h v
Step-IsValid {db} {db'} (fail id msg h) v = update_deploy-IsValid _ (λ d. refl) id db db' h v
Step-IsValid {db} {db'} (evict id h) v = update_deploy-IsValid _ (λ d. refl) id db db' h v
Step-IsValid {db} {db'} (remove id e) v = rw e (record {
  ordered = without-Below id db.next_id db.deploys v.ordered;
  unique = without-Unique id db.deploys v.unique;
})
Step-IsValid (alias repo_id branch id e) v =
    rw e (record { ordered = v.ordered; unique = v.unique })

-- After any sequence of successful operations on a valid table, ids are still strictly descending
-- and below the next id, and no repo has two deploys of one sha or of one short sha.
pub Steps-IsValid : {db db' : Database} → IsValid db → Steps db db' → IsValid db'
Steps-IsValid v here = v
Steps-IsValid v (next s t) = Step-IsValid t (Steps-IsValid v s)
