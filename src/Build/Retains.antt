-- ===== src/Build/Retains.antt =====
-- What stays of a ready deploy while its downloads are built.
use mathlib.Core.Option
use local_preview.Base.{
  ℕ, ◌≡◌, refl, sym, subst, ◌∙◌, String, Bool, true, Option, none, some, ◌==◌, if◌then◌else◌,
  if_cases, Table,
}
use local_preview.Db.Deploys.{
  Database, DeployRow, ArtifactRef, get_deploy_by_id, update_deploy, set_row, set_deploy_artifacts,
  set_deploy_artifact_status, with_status, Result,
}
use local_preview.Db.Deploys
use local_preview.Db.Deploys.Lifecycle.{get-set_row}
use local_preview.Build.{World, Item, has}
use local_preview.Build.Env.{Env, Settings}
use local_preview.Build.Process.{try_db}
use local_preview.Build.Turn.{build_artifacts}
use local_preview.Build.Changes.{Files}
use local_preview.Build.Grows.{hydrate-Files, build_side-Files}
use local_preview.Build.Downloads.{build_artifacts_rule}
use local_preview.Build.Rows.{OnRow, RowAt}
use local_preview.Build.Stores.{Stores, Stores-refl, hydrate-Stores, build_side-Stores}

-- What the sides of a row are called
abbrev pub SameSides : DeployRow → DeployRow → Type 0
SameSides built d =
    (d.repo_name ≡ built.repo_name) × (d.fe_hash ≡ built.fe_hash) × (d.be_hash ≡ built.be_hash)

-- The sides of the row of `id` keep their names, and what they stand for is still there.
pub record Retains (id : ℕ) (w w' : World) : Type 0 where
  pub same_sides :
      (built : DeployRow) → RowAt (SameSides built) id w → RowAt (SameSides built) id w'
  pub keeps : (i : Item) → has i w.local ≡ true → has i w'.local ≡ true
  pub stores : Stores w w'

pub Retains-refl : (id : ℕ) (w : World) → Retains id w w
Retains-refl id w = record { same_sides = λ built h. h; keeps = λ i h. h; stores = Stores-refl w }

pub Retains-trans : (id : ℕ) (u v w : World) → Retains id u v → Retains id v w → Retains id u w
Retains-trans id u v w f g = record {
  same_sides = λ built h. g.same_sides built (f.same_sides built h);
  keeps = λ i h. g.keeps i (f.keeps i h);
  stores = record {
    same_tier = g.stores.same_tier ∙ f.stores.same_tier;
    same_state = g.stores.same_state ∙ f.stores.same_state;
    same_repos = g.stores.same_repos ∙ f.stores.same_repos;
  };
}

pub Files-Retains : (id : ℕ) (w w' : World) → Files w w' → Stores w w' → Retains id w w'
Files-Retains id w w' f s = record {
  same_sides = λ built h.
      subst (λ (db : Database). OnRow (SameSides built) (get_deploy_by_id id db.deploys))
        (sym f.same_db) h;
  keeps = f.keeps;
  stores = s;
}

-- A write to the artifacts of any row
set_artifacts-Retains :
    (id j : ℕ) (refs : Table String ArtifactRef) (w : World)
    → Retains id w (try_db (set_deploy_artifacts j refs w.db) w)
unfolding set_deploy_artifacts update_deploy
set_artifacts-Retains id j refs w = go (get_deploy_by_id j w.db.deploys)
  where
    set_refs : DeployRow → DeployRow
    set_refs d = record d { artifacts = refs }

    row :
        (built : DeployRow) (o : Option DeployRow)
        → OnRow (SameSides built) o
        → OnRow (SameSides built) (if j == id then Option.map set_refs o else o)
    row built none h = if_cases (OnRow (SameSides built)) (j == id) _ _ (λ e. tt) (λ e. tt)
    row built (some d) h = if_cases (OnRow (SameSides built)) (j == id) _ _ (λ e. h) (λ e. h)

    go :
        (o : Option DeployRow)
        → Retains id w (
            try_db
              (elim o [
                | none ↦ Deploys.err Deploys.not_found
                | some d ↦ Deploys.ok (record w.db { deploys = set_row j set_refs w.db.deploys })
              ])
              w)
    go none = Retains-refl id w
    go (some d) = record {
      same_sides = λ built h.
          subst (OnRow (SameSides built)) (sym (get-set_row set_refs (λ d. refl) j id w.db.deploys))
            (row built (get_deploy_by_id id w.db.deploys) h);
      keeps = λ i h. h;
      stores = record { same_tier = refl; same_state = refl; same_repos = refl };
    }

set_artifact_status-Retains :
    (id j : ℕ) (name status error : String) (w : World)
    → Retains id w (try_db (set_deploy_artifact_status j name status error w.db) w)
unfolding set_deploy_artifact_status
set_artifact_status-Retains id j name status error w = row (get_deploy_by_id j w.db.deploys)
  where
    refs :
        (o : Option (Table String ArtifactRef))
        → Retains id w (
            try_db
              (elim o [
                | none ↦ Deploys.err Deploys.not_found
                | some refs ↦ set_deploy_artifacts j refs w.db
              ])
              w)
    refs none = Retains-refl id w
    refs (some r) = set_artifacts-Retains id j r w

    row :
        (o : Option DeployRow)
        → Retains id w (
            try_db
              (elim o [
                | none ↦ Deploys.err Deploys.not_found
                | some d ↦ elim (with_status name status error d.artifacts) [
                  | none ↦ Deploys.err Deploys.not_found
                  | some refs ↦ set_deploy_artifacts j refs w.db
                ]
              ])
              w)
    row none = Retains-refl id w
    row (some d) = refs (with_status name status error d.artifacts)

module _ {M : Type 0} (env : Env M) where
  pub build_artifacts-Retains :
      (id : ℕ) (settings : Settings) (row : DeployRow) (rebuild : Bool) (w : World)
      → Retains id w (build_artifacts env settings row rebuild w)
  build_artifacts-Retains id =
      build_artifacts_rule env (Retains id) (Retains-refl id) (Retains-trans id)
        (set_artifact_status-Retains id)
        (λ i w. Files-Retains id w _ (hydrate-Files env i w) (hydrate-Stores env i w))
        (λ row i steps rebuild w.
          Files-Retains id w _ (build_side-Files env row i steps true rebuild w)
            (build_side-Stores env row i steps true rebuild w))
