-- ===== src/Db/Deploys/Create.antt =====
-- CreateDeploy: which short sha a new deploy gets, and when creation is refused.
use local_preview.Base.{
  ℕ, zero, suc, ◌+◌, ◌-◌, ◌≤◌, ◌<◌, ◌≡◌, refl, String, Bool, true, false, ◌||◌, ◌⊎◌, inl, inr, List,
  [], ◌∷◌, arith, if◌then◌else◌, any, length, Bool-cases,
}
use local_preview.Db.Deploys.{
  Database, DeployRow, DeployMeta, DbError, Sha, Result, ok, err, conflict, no_short_sha,
  insert_failed, queued, prefix, same_sha, same_short, has_sha, violates_unique, new_row,
  create_from, create_deploy,
}

any-or :
    {A : Type 0} (p q : A → Bool) (xs : List A) → any (λ x. p x || q x) xs ≡ (any p xs || any q xs)
any-or p q [] = refl
any-or p q (x ∷ xs) = ground (arith, any-or p q xs)

le_cases : (n m : ℕ) → n ≤ m → (n ≡ m) ⊎ (n + 1 ≤ m)
le_cases n m h = omega arith

-- Another deploy of the repo has this short sha.
abbrev pub IsTaken : Database → ℕ → Sha → Type 0
IsTaken db repo_id short_sha = any (same_short repo_id short_sha) db.deploys ≡ true

-- What a successful creation has done, when the loop began at the prefix length `from`.
pub record Created (db : Database) (repo_id : ℕ) (sha : Sha) (from until : ℕ) (row : DeployRow)
    (after : Database) : Type 0 where
  pub width : ℕ
  pub at_least : from ≤ width
  pub below : width < until
  pub short : row.short_sha ≡ prefix width sha
  pub free : violates_unique repo_id sha (prefix width sha) db.deploys ≡ false
  pub shortest : (m : ℕ) → from ≤ m → m < width → IsTaken db repo_id (prefix m sha)
  pub identity : (row.id ≡ db.next_id) × (row.repo_id ≡ repo_id) × (row.sha ≡ sha)
  pub fresh : row.status ≡ queued
  pub stored : after ≡ record db { deploys = row ∷ db.deploys; next_id = db.next_id + 1 }

-- The insert with a prefix from `from` below `until` failed, and every shorter one is taken.
abbrev pub IsBroken : Database → ℕ → Sha → ℕ → ℕ → Type 0
IsBroken db repo_id sha from until =
    (n : ℕ) × (from ≤ n)
    × (n < until)
    × (db.insert_fails (prefix n sha) ≡ true)
    × ((m : ℕ) → from ≤ m → m < n → IsTaken db repo_id (prefix m sha))

-- Why creation was refused, when the loop tried the prefix lengths from `from` below `until`.
abbrev pub Refused : Database → ℕ → Sha → ℕ → ℕ → DbError → Type 0
Refused db repo_id sha from until e =
    ((e ≡ conflict) × (has_sha repo_id sha db.deploys ≡ true))
    ⊎ (((e ≡ no_short_sha) × ((m : ℕ) → from ≤ m → m < until → IsTaken db repo_id (prefix m sha)))
        ⊎ ((e ≡ insert_failed) × IsBroken db repo_id sha from until))

module _ (db : Database) (repo_id : ℕ) (repo_name : String) (sha : Sha) (meta : DeployMeta)
    (now : String) where
  violation-IsTaken :
      (m : ℕ)
      → violates_unique repo_id sha (prefix m sha) db.deploys ≡ true
      → has_sha repo_id sha db.deploys ≡ false
      → IsTaken db repo_id (prefix m sha)
  violation-IsTaken m v h =
      ground (arith, any-or (same_sha repo_id sha) (same_short repo_id (prefix m sha)) db.deploys)

  inserted : ℕ → Result (DeployRow × Database)
  inserted n = ok (
    new_row db.next_id repo_id repo_name sha (prefix n sha) meta now,
    record db {
      deploys = new_row db.next_id repo_id repo_name sha (prefix n sha) meta now ∷ db.deploys;
      next_id = db.next_id + 1;
    },
  )

  create_from_step :
      (rounds n : ℕ)
      → create_from (suc rounds) n db repo_id repo_name sha meta now ≡ (
          if db.insert_fails (prefix n sha)
          then err insert_failed
          else if violates_unique repo_id sha (prefix n sha) db.deploys
          then (if has_sha repo_id sha db.deploys
              then err conflict
              else create_from rounds (n + 1) db repo_id repo_name sha meta now)
          else inserted n)
  unfolding create_from inserted
  create_from_step rounds n = ground arith

  Created-first :
      (from until : ℕ) (row : DeployRow) (after : Database)
      → from < until
      → violates_unique repo_id sha (prefix from sha) db.deploys ≡ false
      → inserted from ≡ ok (row, after)
      → Created db repo_id sha from until row after
  unfolding inserted new_row
  Created-first from until row after b v h = record {
    width = from;
    at_least = omega arith;
    below = b;
    short = ground arith;
    free = v;
    shortest = λ m lo hi. absurd (omega arith);
    identity = (ground arith, ground arith, ground arith);
    fresh = ground arith;
    stored = ground arith;
  }

  Created-later :
      (from until : ℕ) (row : DeployRow) (after : Database)
      → IsTaken db repo_id (prefix from sha)
      → Created db repo_id sha (from + 1) until row after
      → Created db repo_id sha from until row after
  Created-later from until row after t c = record {
    width = c.width;
    at_least = omega (arith, c.at_least);
    below = c.below;
    short = c.short;
    free = c.free;
    shortest =
        λ m lo hi. elim (le_cases from m lo) [ inl e ↦ rw (← e) t | inr l ↦ c.shortest m l hi ];
    identity = c.identity;
    fresh = c.fresh;
    stored = c.stored;
  }

  create_from-Created :
      (rounds from until : ℕ) (row : DeployRow) (after : Database)
      → from + rounds ≡ until
      → create_from rounds from db repo_id repo_name sha meta now ≡ ok (row, after)
      → Created db repo_id sha from until row after
  create_from-Created zero from until row after b h = unfold create_from in cc
  create_from-Created (suc rounds) from until row after b h =
      elim (Bool-cases (db.insert_fails (prefix from sha))) [
        | inl x ↦ absurd (ground (arith, create_from_step rounds from))
        | inr x ↦ elim (Bool-cases (violates_unique repo_id sha (prefix from sha) db.deploys)) [
          | inl v ↦ elim (Bool-cases (has_sha repo_id sha db.deploys)) [
            | inl s ↦ absurd (ground (arith, create_from_step rounds from))
            | inr s ↦ Created-later from until row after (violation-IsTaken from v s) (
                create_from-Created rounds (from + 1) until row after (omega arith)
                  (ground (arith, create_from_step rounds from)))
          ]
          | inr v ↦
              Created-first from until row after (omega arith) v
                (ground (arith, create_from_step rounds from))
        ]
      ]

  also_taken :
      (from until : ℕ) (e : DbError)
      → IsTaken db repo_id (prefix from sha)
      → Refused db repo_id sha (from + 1) until e
      → Refused db repo_id sha from until e
  also_taken from until e t (inl c) = inl c
  also_taken from until e t (inr (inl (k, l))) =
      inr (inl (k, λ m lo hi. elim (le_cases from m lo) [ inl e ↦ rw (← e) t | inr g ↦ l m g hi ]))
  also_taken from until e t (inr (inr (k, (n, lo, hi, x, l)))) = inr (
      inr (
        k,
        (
          n,
          omega arith,
          hi,
          x,
          λ m lo' hi'. elim (le_cases from m lo') [ inl e ↦ rw (← e) t | inr g ↦ l m g hi' ],
        ),
      ))

  create_from_errors :
      (rounds from until : ℕ) (e : DbError)
      → from + rounds ≡ until
      → create_from rounds from db repo_id repo_name sha meta now ≡ err e
      → Refused db repo_id sha from until e
  create_from_errors zero from until e b h =
      inr (inl (unfold create_from in cc, λ m lo hi. absurd (omega arith)))
  create_from_errors (suc rounds) from until e b h =
      elim (Bool-cases (db.insert_fails (prefix from sha))) [
        | inl x ↦ inr (
            inr (
              ground (arith, create_from_step rounds from),
              (from, omega arith, omega arith, x, λ m lo hi. absurd (omega arith)),
            ))
        | inr x ↦ elim (Bool-cases (violates_unique repo_id sha (prefix from sha) db.deploys)) [
          | inl v ↦ elim (Bool-cases (has_sha repo_id sha db.deploys)) [
            | inl s ↦ inl (ground (arith, create_from_step rounds from), s)
            | inr s ↦ also_taken from until e (violation-IsTaken from v s) (
                create_from_errors rounds (from + 1) until e (omega arith)
                  (ground (arith, create_from_step rounds from)))
          ]
          | inr v ↦ absurd (unfold inserted in ground (arith, create_from_step rounds from))
        ]
      ]

  -- A deploy that is created is queued under the next id, with a short sha of at least seven
  -- characters that no deploy of the repo has; every shorter prefix of that length is taken. The
  -- row goes in front of the table and no other row changes.
  pub create_deploy-Created :
      (row : DeployRow) (after : Database)
      → create_deploy db repo_id repo_name sha meta now ≡ ok (row, after)
      → Created db repo_id sha 7 (length sha + 1) row after
  unfolding create_deploy
  create_deploy-Created row after h = elim (le_cases' (length sha + 1)) [
    | inl few ↦ absurd (no_rounds few h)
    | inr many ↦ create_from-Created _ 7 (length sha + 1) row after (omega arith) h
  ]
    where
      le_cases' : (n : ℕ) → (n - 7 ≡ 0) ⊎ (7 ≤ n)
      le_cases' n = omega arith

      no_rounds :
          length sha + 1 - 7 ≡ 0
          → create_from (length sha + 1 - 7) 7 db repo_id repo_name sha meta now ≡ ok (row, after)
          → ⊥
      no_rounds e h = unfold create_from in ground arith

  -- Creation fails in three ways only: with a conflict when the repo already has a deploy of the very
  -- sha; when every prefix of at least seven characters is taken; and when an insert fails for another
  -- reason than a UNIQUE constraint, once every shorter prefix of that length was taken.
  pub create_deploy_errors :
      (e : DbError)
      → create_deploy db repo_id repo_name sha meta now ≡ err e
      → ((e ≡ conflict) × (has_sha repo_id sha db.deploys ≡ true))
        ⊎ (((e ≡ no_short_sha)
              × ((m : ℕ) → 7 ≤ m → m ≤ length sha → IsTaken db repo_id (prefix m sha)))
            ⊎ ((e ≡ insert_failed) × IsBroken db repo_id sha 7 (length sha + 1)))
  unfolding create_deploy
  create_deploy_errors e h = elim (create_from_errors _ 7 _ e refl h) [
    | inl c ↦ inl c
    | inr (inl (k, l)) ↦ inr (inl (k, λ m lo hi. l m lo (omega arith)))
    | inr (inr (k, (n, lo, hi, x, l))) ↦ inr (inr (k, (n, lo, omega arith, x, l)))
  ]
