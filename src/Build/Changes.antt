-- ===== src/Build/Changes.antt =====
-- What the parts of the pipeline leave alone: the building of sides never touches the database, and
-- no write of a worker's turn makes a deploy queued.
use mathlib.Core.Option
use local_preview.Base.{
  ℕ, ◌≡◌, refl, ◌∙◌, subst, Bool, true, false, Option, none, some, List, arith, ◌==◌, if◌then◌else◌,
}
use local_preview.Db.Deploys.{
  Database, DeployRow, DeployStatus, ArtifactRef, queued, building, ready, failed, evicted,
  get_deploy_by_id, set_row, update_deploy, set_deploy_building, set_deploy_failed,
  set_deploy_ready, set_deploy_hashes, set_deploy_artifacts, set_deploy_artifact_status,
  with_status, not_found, Result,
}
use local_preview.Db.Deploys
use local_preview.Db.Deploys.Lifecycle.{get-set_row}
use local_preview.Build.{World, Item, has, ok, err, Outcome, ◌>>=◌}

unfoldable pub is_queued : DeployStatus → Bool
is_queued queued = true
is_queued building = false
is_queued ready = false
is_queued failed = false
is_queued evicted = false

abbrev pub queued_row : Option DeployRow → Bool
queued_row none = false
queued_row (some d) = is_queued d.status

-- The deploy of the id is queued.
abbrev pub queued_at : ℕ → List DeployRow → Bool
queued_at id ds = queued_row (get_deploy_by_id id ds)

-- Whatever is queued afterwards was queued before.
abbrev pub Quiet : Database → Database → Type 0
Quiet db db' = (j : ℕ) → queued_at j db'.deploys ≡ true → queued_at j db.deploys ≡ true

-- Files only appear, and everything but files and the records beside them stays as it was.
pub record Files (w w' : World) : Type 0 where
  pub same_db : w'.db ≡ w.db
  pub same_work : w'.work ≡ w.work
  pub same_repos : w'.repos ≡ w.repos
  pub keeps : (i : Item) → has i w.local ≡ true → has i w'.local ≡ true

pub record Advances (w w' : World) : Type 0 where
  pub quiet : Quiet w.db w'.db
  pub same_work : w'.work ≡ w.work

pub Files-refl : (w : World) → Files w w
Files-refl w = record { same_db = refl; same_work = refl; same_repos = refl; keeps = λ i h. h }

pub Files-trans : {u v w : World} → Files u v → Files v w → Files u w
Files-trans f g = record {
  same_db = g.same_db ∙ f.same_db;
  same_work = g.same_work ∙ f.same_work;
  same_repos = g.same_repos ∙ f.same_repos;
  keeps = λ i h. g.keeps i (f.keeps i h);
}

pub Advances-trans : {u v w : World} → Advances u v → Advances v w → Advances u w
Advances-trans f g = record {
  quiet = λ j h. f.quiet j (g.quiet j h);
  same_work = g.same_work ∙ f.same_work;
}

pub Files-Advances : {w w' : World} → Files w w' → Advances w w'
Files-Advances f = record {
  quiet = λ j h. subst (λ (db : Database). queued_at j db.deploys ≡ true) f.same_db h;
  same_work = f.same_work;
}

pub Advances-refl : (w : World) → Advances w w
Advances-refl w = Files-Advances (Files-refl w)

-- `R` of the world before and of the one after, whether or not the part failed
pub Files-bind :
    {A B : Type 0} (u : World) (m : Outcome A) (f : A → World → Outcome B)
    → Files u m.0
    → ((a : A) (w : World) → Files w (f a w).0)
    → Files u (m >>= f).0
Files-bind u (w, ok a) f h k = Files-trans h (k a w)
Files-bind u (w, err e) f h k = h

pub Advances-bind :
    {A B : Type 0} (u : World) (m : Outcome A) (f : A → World → Outcome B)
    → Advances u m.0
    → ((a : A) (w : World) → Advances w (f a w).0)
    → Advances u (m >>= f).0
Advances-bind u (w, ok a) f h k = Advances-trans h (k a w)
Advances-bind u (w, err e) f h k = h

-- An update that keeps ids and makes nothing queued.
pub set_row-Quiet :
    (f : DeployRow → DeployRow)
    → ((d : DeployRow) → (f d).id ≡ d.id)
    → ((d : DeployRow) → is_queued (f d).status ≡ true → is_queued d.status ≡ true)
    → (id j : ℕ) (ds : List DeployRow) → queued_at j (set_row id f ds) ≡ true
    → queued_at j ds ≡ true
set_row-Quiet f same q id j ds h =
    found (get_deploy_by_id j ds) (rw (← get-set_row f same id j ds) h)
  where
    found :
        (o : Option DeployRow)
        → queued_row (if id == j then Option.map f o else o) ≡ true
        → queued_row o ≡ true
    found none e = ground arith
    found (some d) e = ground (arith, q d)

pub update_deploy-Quiet :
    (f : DeployRow → DeployRow)
    → ((d : DeployRow) → (f d).id ≡ d.id)
    → ((d : DeployRow) → is_queued (f d).status ≡ true → is_queued d.status ≡ true)
    → (id : ℕ) (db db' : Database) → update_deploy id f db ≡ Deploys.ok db'
    → Quiet db db'
unfolding update_deploy
update_deploy-Quiet f same q id db db' e j h =
    ground (arith, set_row-Quiet f same q id j db.deploys)
