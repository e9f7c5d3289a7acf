-- ===== src/Db/Listing/Pages.antt =====
-- Totals and snapshots of a listing.
use local_preview.Base.{
  ℕ, ◌+◌, ◌≤◌, ◌<◌, ◌≡◌, refl, ◌∙◌, String, Bool, true, false, ◌&&◌, not, List, [], ◌∷◌, arith,
  length, keep, pos, ap,
}
use local_preview.Db.Deploys.{DeployRow, DeployMeta, Database, Sha, ok, create_deploy}
use local_preview.Db.Deploys.Create.{create_deploy-Created}
use local_preview.Db.Listing.{
  SqlText, DeployFilter, ProcKey, crashed_any, crashed_only, crashed_none, matches_crashed,
  matches_columns, matches, count_deploys, page, list_deploys,
}

and_true : (b : Bool) → b ≡ (b && true)
and_true true = refl
and_true false = refl

crashed_split :
    (procs : List ProcKey) (d : DeployRow)
    → matches_crashed crashed_none procs d ≡ not (matches_crashed crashed_only procs d)
unfolding matches_crashed
crashed_split [] d = refl
crashed_split (k ∷ ks) d = refl

length-keep_split :
    (p q : DeployRow → Bool) (rows : List DeployRow)
    → length (keep (λ d. p d && q d) rows) + length (keep (λ d. p d && not (q d)) rows)
      ≡ length (keep p rows)
length-keep_split p q [] = refl
length-keep_split p q (d ∷ rows) = ground (arith, length-keep_split p q rows)

keep-same :
    (p q : DeployRow → Bool)
    → ((d : DeployRow) → p d ≡ q d)
    → (rows : List DeployRow) → keep p rows ≡ keep q rows
keep-same p q e [] = refl
keep-same p q e (d ∷ rows) = ground (arith, e d, keep-same p q e rows)

-- Whatever else a filter asks for, the deploys with a crashed side and those without one are
-- together as many as those that it finds with runtime state ignored.
pub count_deploys-split :
    (sql : SqlText) (f : DeployFilter) (db : Database)
    → count_deploys sql (record f { crashed = crashed_only }) db
        + count_deploys sql (record f { crashed = crashed_none }) db
      ≡ count_deploys sql (record f { crashed = crashed_any }) db
unfolding matches_columns matches_crashed
count_deploys-split sql f db =
    ap (λ (n : ℕ). count_deploys sql (record f { crashed = crashed_only }) db + n)
      (ap length (keep-same _ _ (λ d. rw (crashed_split f.crashed_procs d) refl) db.deploys))
    ∙ length-keep_split (matches_columns sql f) (matches_crashed crashed_only f.crashed_procs)
        db.deploys
    ∙ ap length (keep-same _ _ (λ d. and_true (matches_columns sql f d)) db.deploys)

keep_skips :
    (p : DeployRow → Bool) (d : DeployRow) (rows : List DeployRow)
    → p d ≡ false
    → keep p (d ∷ rows) ≡ keep p rows
keep_skips p d rows h = rw h refl

beyond :
    (sql : SqlText) (f : DeployFilter) (newest : ℕ) (d : DeployRow)
    → 1 ≤ newest
    → newest < d.id
    → matches sql (record f { max_id = pos newest }) d ≡ false
unfolding matches_columns
beyond sql f newest d some_id over = ground arith

-- A listing pinned to a newest id is a snapshot: a deploy that is created afterwards changes no page
-- of it.
pub list_deploys-snapshot :
    (sql : SqlText) (f : DeployFilter) (newest repo_id : ℕ) (repo_name : String) (sha : Sha)
    (meta : DeployMeta) (now : String) (db after : Database) (row : DeployRow)
    → 1 ≤ newest
    → newest < db.next_id
    → create_deploy db repo_id repo_name sha meta now ≡ ok (row, after)
    → list_deploys sql (record f { max_id = pos newest }) after
      ≡ list_deploys sql (record f { max_id = pos newest }) db
list_deploys-snapshot sql f newest repo_id repo_name sha meta now db after row some_id old h =
    let made = create_deploy-Created db repo_id repo_name sha meta now row after h in
    ap (λ (rows : List DeployRow). page f.limit f.offset rows)
      (ap (λ (d : Database). keep (matches sql (record f { max_id = pos newest })) d.deploys)
          made.stored
        ∙ keep_skips (matches sql (record f { max_id = pos newest })) row db.deploys
            (beyond sql f newest row some_id (rw made.identity.0 old)))
