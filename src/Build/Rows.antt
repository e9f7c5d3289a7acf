-- ===== src/Build/Rows.antt =====
-- What the writes to a row leave of the others of its fields.
use mathlib.Core.Option
use local_preview.Base.{
  [], ◌∷◌, arith, ℕ, ◌≡◌, refl, sym, subst, String, true, Option, none, some, List, ◌==◌,
  if◌then◌else◌, ==_iff,
}
use local_preview.Db.Deploys.{
  Database, DeployRow, ArtifactRef, get_deploy_by_id, update_deploy, set_deploy_hashes,
  set_deploy_artifacts, Result, set_row,
}
use local_preview.Db.Deploys
use local_preview.Db.Deploys.Lifecycle.{get-set_row}
use local_preview.Build.{World}
use local_preview.Build.Manifests.{HashSet}
use local_preview.Build.Process.{try_db, write_db}
use local_preview.Build.Changes.{Files}
use local_preview.Build.Served.{Post}

abbrev pub OnRow : (DeployRow → Type 0) → Option DeployRow → Type 0
OnRow P none = Unit
OnRow P (some d) = P d

-- The row of the id, if there is one, has the property.
abbrev pub RowAt : (DeployRow → Type 0) → ℕ → World → Type 0
RowAt P id w = OnRow P (get_deploy_by_id id w.db.deploys)

abbrev pub Records : String → HashSet → DeployRow → Type 0
Records repo hs d = (d.repo_name ≡ repo) × (d.fe_hash ≡ hs.fe) × (d.be_hash ≡ hs.be)

pub RowAt-set_row :
    (P Q : DeployRow → Type 0) (f : DeployRow → DeployRow)
    → ((d : DeployRow) → (f d).id ≡ d.id)
    → ((d : DeployRow) → P d → Q (f d))
    → (id : ℕ) (ds : List DeployRow) → OnRow P (get_deploy_by_id id ds)
    → OnRow Q (get_deploy_by_id id (set_row id f ds))
RowAt-set_row P Q f same g id ds h =
    subst (OnRow Q) (sym (get-set_row f same id id ds)) (go (get_deploy_by_id id ds) h)
  where
    self : (id == id) ≡ true
    self = (==_iff id id).1 refl

    go : (o : Option DeployRow) → OnRow P o → OnRow Q (if id == id then Option.map f o else o)
    go none p = rw self tt
    go (some d) p = rw self (g d p)

pub write_row-Post :
    (P Q : DeployRow → Type 0) (f : DeployRow → DeployRow)
    → ((d : DeployRow) → (f d).id ≡ d.id)
    → ((d : DeployRow) → P d → Q (f d))
    → (id : ℕ) (w : World) → RowAt P id w
    → Post (RowAt Q id) (write_db (update_deploy id f w.db) w)
unfolding update_deploy
write_row-Post P Q f same g id w h = go (get_deploy_by_id id w.db.deploys)
  where
    go :
        (o : Option DeployRow)
        → Post (RowAt Q id) (
            write_db
              (elim o [
                | none ↦ Deploys.err Deploys.not_found
                | some d ↦ Deploys.ok (record w.db { deploys = set_row id f w.db.deploys })
              ])
              w)
    go none = tt
    go (some d) = RowAt-set_row P Q f same g id w.db.deploys h

pub RowAt-Files :
    (P : DeployRow → Type 0) (id : ℕ) (w w' : World) → Files w w' → RowAt P id w → RowAt P id w'
RowAt-Files P id w w' f h =
    subst (λ (db : Database). OnRow P (get_deploy_by_id id db.deploys)) (sym f.same_db) h

pub OnRow-map :
    (P Q : DeployRow → Type 0)
    → ((d : DeployRow) → P d → Q d)
    → (o : Option DeployRow) → OnRow P o
    → OnRow Q o
OnRow-map P Q f none h = tt
OnRow-map P Q f (some d) h = f d h

-- A write that ends the row's life as a ready one, or finds no row
pub try_row-RowAt :
    (Q : DeployRow → Type 0) (f : DeployRow → DeployRow)
    → ((d : DeployRow) → (f d).id ≡ d.id)
    → ((d : DeployRow) → Q (f d))
    → (id : ℕ) (w : World) → RowAt Q id (try_db (update_deploy id f w.db) w)
unfolding update_deploy
try_row-RowAt Q f same q id w = go (get_deploy_by_id id w.db.deploys) refl
  where
    go :
        (o : Option DeployRow)
        → get_deploy_by_id id w.db.deploys ≡ o
        → RowAt Q id (
            try_db
              (elim o [
                | none ↦ Deploys.err Deploys.not_found
                | some d ↦ Deploys.ok (record w.db { deploys = set_row id f w.db.deploys })
              ])
              w)
    go none e = subst (OnRow Q) (sym e) tt
    go (some d) e =
        RowAt-set_row (λ d. Unit {0}) Q f same (λ d u. q d) id w.db.deploys
          (subst (OnRow (λ d. Unit {0})) (sym e) tt)

pub get-id :
    (id : ℕ) (ds : List DeployRow) (row : DeployRow)
    → get_deploy_by_id id ds ≡ some row
    → row.id ≡ id
unfolding get_deploy_by_id
get-id id [] row e = ground arith
get-id id (d ∷ ds) row e = ground (arith, get-id id ds row)
