-- ===== src/Db/Deploys/Lifecycle.antt =====
-- What updates and deletes of one deploy do to the rows that a lookup by id returns.
use mathlib.Core.Option
use local_preview.Base.{
  ℕ, ◌≡◌, ◌⊎◌, inl, inr, refl, String, false, none, List, [], ◌∷◌, arith, ◌==◌, if◌then◌else◌,
  Option-cases, Table, ℕ_comparable, String_comparable, pair_comparable,
}
use local_preview.Db.Deploys.{
  Database, DeployRow, ok, err, not_found, get_deploy_by_id, set_row, update_deploy, without_id,
  without_alias, delete_deploy, is_aliased,
}

module _ (f : DeployRow → DeployRow) (same : (d : DeployRow) → (f d).id ≡ d.id) (id : ℕ) where
  pub get-set_row :
      (j : ℕ) (ds : List DeployRow)
      → get_deploy_by_id j (set_row id f ds)
        ≡ (if id == j then Option.map f (get_deploy_by_id j ds) else get_deploy_by_id j ds)
  unfolding get_deploy_by_id set_row
  get-set_row j [] = ground arith
  get-set_row j (d ∷ ds) = ground (arith, same d, get-set_row j ds)

  -- An update of a deploy that is there changes that row as told, leaves every other row, the
  -- aliases and the next id alone, and reports no error; an update of one that is not there is
  -- refused with ErrNotFound.
  pub update_deploy_lem :
      (db : Database)
      → ((get_deploy_by_id id db.deploys ≡ none) × (update_deploy id f db ≡ err not_found))
        ⊎ ((db' : Database) × (update_deploy id f db ≡ ok db')
            × (db'.aliases ≡ db.aliases)
            × (db'.next_id ≡ db.next_id)
            × ((j : ℕ)
                → get_deploy_by_id j db'.deploys ≡ (
                    if id == j
                    then Option.map f (get_deploy_by_id j db.deploys)
                    else get_deploy_by_id j db.deploys)))
  unfolding update_deploy
  update_deploy_lem db = elim (Option-cases (get_deploy_by_id id db.deploys)) [
    | inl e ↦ inl (e, rw (e, update_deploy))
    | inr (d, e) ↦ inr (
      record db { deploys = set_row id f db.deploys },
      rw (e, update_deploy),
      refl,
      refl,
      λ j. get-set_row j db.deploys,
    )
  ]

get-without_id :
    (id j : ℕ) (ds : List DeployRow)
    → get_deploy_by_id j (without_id id ds) ≡ (if id == j then none else get_deploy_by_id j ds)
unfolding get_deploy_by_id
get-without_id id j [] = ground arith
get-without_id id j (d ∷ ds) = ground (arith, get-without_id id j ds)

is_aliased-without :
    (id j : ℕ) (m : Table (ℕ × String) ℕ)
    → is_aliased j (without_alias id m) ≡ (if id == j then false else is_aliased j m)
is_aliased-without id j [] = ground arith
is_aliased-without id j ((k, d) ∷ m) = ground (arith, is_aliased-without id j m)

-- Deleting a deploy takes away its row and every branch alias that points at it, and no other row
-- and no other deploy's aliases.
pub delete_deploy_lem :
    (id j : ℕ) (db : Database)
    → (get_deploy_by_id j (delete_deploy id db).deploys
        ≡ (if id == j then none else get_deploy_by_id j db.deploys))
      × (is_aliased j (delete_deploy id db).aliases
          ≡ (if id == j then false else is_aliased j db.aliases))
unfolding delete_deploy
delete_deploy_lem id j db = (get-without_id id j db.deploys, is_aliased-without id j db.aliases)
