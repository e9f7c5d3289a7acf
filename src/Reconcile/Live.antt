-- ===== src/Reconcile/Live.antt =====
-- Which artifacts a pass looks at.
use local_preview.Base.{
  ◌≡◌, refl, String, Bool, true, false, ◌||◌, List, [], ◌∷◌, ◌++◌, arith, any, str_eq, All, All-map,
  Table, pair_same, pair_same_iff, String_comparable, pair_comparable, Bool-cases, inl, inr,
}
use local_preview.Db.Deploys.{ArtifactRef, DeployRow, is_ready}
use local_preview.Store.Cache.{ArtifactId}
use local_preview.Reconcile.{add_ref, add_artifacts, add_row, collect_from}

abbrev pub has_ref : String → String → String → List ArtifactId → Bool
has_ref repo side hash refs = any (λ r. pair_same r (repo, (side, hash))) refs

-- The hash is empty, or the list has the reference.
abbrev pub IsCovered : List ArtifactId → String → String → String → Type 0
IsCovered refs repo side hash = str_eq hash "" ≡ false → has_ref repo side hash refs ≡ true

any-snoc :
    (q : ArtifactId → Bool) (xs : List ArtifactId) (x : ArtifactId)
    → any q (xs ++ x ∷ []) ≡ (any q xs || q x)
any-snoc q [] x = ground arith
any-snoc q (y ∷ ys) x = ground (arith, any-snoc q ys x)

module _ (q : ArtifactId → Bool) where
  any-add_ref :
      (repo side hash : String) (out : List ArtifactId)
      → any q out ≡ true
      → any q (add_ref repo side hash out) ≡ true
  unfolding add_ref
  any-add_ref repo side hash out h = ground (arith, any-snoc q out (repo, (side, hash)))

  any-add_artifacts :
      (repo : String) (arts : Table String ArtifactRef) (out : List ArtifactId)
      → any q out ≡ true
      → any q (add_artifacts repo arts out) ≡ true
  unfolding add_artifacts
  any-add_artifacts repo [] out h = h
  any-add_artifacts repo ((name, art) ∷ arts) out h =
      any-add_artifacts repo arts (add_ref repo "dl" art.hash out)
        (any-add_ref repo "dl" art.hash out h)

  any-add_row :
      (row : DeployRow) (out : List ArtifactId) → any q out ≡ true → any q (add_row row out) ≡ true
  unfolding add_row
  any-add_row row out h = elim (Bool-cases (is_ready row.status)) [
    | inr e ↦ rw (e, add_row) h
    | inl e ↦
        rw (e, add_row)
          (any-add_artifacts row.repo_name row.artifacts _ (
            any-add_ref row.repo_name "be" row.be_hash _
              (any-add_ref row.repo_name "fe" row.fe_hash out h)))
  ]

  any-collect_from :
      (rows : List DeployRow) (out : List ArtifactId)
      → any q out ≡ true
      → any q (collect_from rows out) ≡ true
  unfolding collect_from
  any-collect_from [] out h = h
  any-collect_from (row ∷ rows) out h =
      any-collect_from rows (add_row row out) (any-add_row row out h)

add_ref-IsCovered :
    (repo side hash : String) (out : List ArtifactId)
    → IsCovered (add_ref repo side hash out) repo side hash
unfolding add_ref
add_ref-IsCovered repo side hash out e =
    let ref : ArtifactId = (repo, (side, hash)) in
    ground (arith, any-snoc (λ r. pair_same r ref) out ref, (pair_same_iff ref ref).1 refl)

add_artifacts-IsCovered :
    (repo : String) (arts : Table String ArtifactRef) (out : List ArtifactId)
    → All
        (λ (a : String × ArtifactRef). IsCovered (add_artifacts repo arts out) repo "dl" a.1.hash)
        arts
unfolding add_artifacts
add_artifacts-IsCovered repo [] out = tt
add_artifacts-IsCovered repo ((name, art) ∷ arts) out = (
  λ e.
      any-add_artifacts _ repo arts (add_ref repo "dl" art.hash out)
        (add_ref-IsCovered repo "dl" art.hash out e),
  add_artifacts-IsCovered repo arts (add_ref repo "dl" art.hash out),
)

-- The list has every artifact of the row.
pub record CoversRow (refs : List ArtifactId) (row : DeployRow) : Type 0 where
  pub frontend : IsCovered refs row.repo_name "fe" row.fe_hash
  pub backend : IsCovered refs row.repo_name "be" row.be_hash
  pub artifacts :
      All (λ (a : String × ArtifactRef). IsCovered refs row.repo_name "dl" a.1.hash) row.artifacts

add_row-CoversRow :
    (row : DeployRow) (out : List ArtifactId)
    → is_ready row.status ≡ true
    → CoversRow (add_row row out) row
unfolding add_row
add_row-CoversRow row out e =
    rw (e, add_row)
      (record {
        frontend = λ n. any-add_artifacts _ row.repo_name row.artifacts _ (
            any-add_ref _ row.repo_name "be" row.be_hash _
              (add_ref-IsCovered row.repo_name "fe" row.fe_hash out n));
        backend = λ n.
            any-add_artifacts _ row.repo_name row.artifacts _
              (add_ref-IsCovered row.repo_name "be" row.be_hash _ n);
        artifacts = add_artifacts-IsCovered row.repo_name row.artifacts _;
      })

CoversRow-collect_from :
    (rows : List DeployRow) (refs : List ArtifactId) (row : DeployRow)
    → CoversRow refs row
    → CoversRow (collect_from rows refs) row
CoversRow-collect_from rows refs row c = record {
  frontend = λ n. any-collect_from _ rows refs (c.frontend n);
  backend = λ n. any-collect_from _ rows refs (c.backend n);
  artifacts = All-map _ _ (λ a k n. any-collect_from _ rows refs (k n)) row.artifacts c.artifacts;
}

-- Every artifact of every ready deploy is on the list of a pass.
pub collect_from-CoversRow :
    (rows : List DeployRow) (refs : List ArtifactId)
    → All (λ row. is_ready row.status ≡ true → CoversRow (collect_from rows refs) row) rows
unfolding collect_from
collect_from-CoversRow [] refs = tt
collect_from-CoversRow (row ∷ rows) refs = (
  λ e. CoversRow-collect_from rows (add_row row refs) row (add_row-CoversRow row refs e),
  collect_from-CoversRow rows (add_row row refs),
)
