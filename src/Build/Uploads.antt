-- ===== src/Build/Uploads.antt =====
-- What an upload leaves alone, and what it may find gone.
use local_preview.Base.{
  any, keep, Bool-cases, inl, inr, ◌≡◌, refl, subst, ◌∙◌, String, Bool, true, false, not, Option,
  none, some, List, [], ◌∷◌, if_cases, str_eq, pair_same, pair_same_iff, String_comparable,
  pair_comparable,
}
use local_preview.Build.{World, Item, item, has, ok, err, Outcome, ◌>>=◌}
use local_preview.Build.Env.{Env, Saved, saved, source_gone, save_failed}
use local_preview.Build.Sides.{
  persist_side, persist_to, ensure_durable, after_save, hash_of, without_item,
}
use local_preview.Build.Changes.{Advances, queued_at}

abbrev pub was_gone : Saved → Bool
was_gone saved = false
was_gone source_gone = true
was_gone save_failed = false

any-keep :
    (p q : Item → Bool)
    → ((x : Item) → q x ≡ true → p x ≡ true)
    → (xs : List Item) → any q xs ≡ true
    → any q (keep p xs) ≡ true
any-keep p q f [] h = h
any-keep p q f (x ∷ xs) h = elim (Bool-cases (q x)) [
  | inl hit ↦ rw (f x hit, hit) refl
  | inr miss ↦ elim (Bool-cases (p x)) [
    | inl kept ↦ rw (kept, miss) (any-keep p q f xs (rw miss at h))
    | inr gone ↦ rw gone (any-keep p q f xs (rw miss at h))
  ]
]

has-without_item :
    (i j : Item) (is : List Item)
    → pair_same j i ≡ false
    → has i is ≡ true
    → has i (without_item j is) ≡ true
has-without_item i j is n h = any-keep (λ k. not (pair_same j k)) (pair_same i) other is h
  where
    other : (k : Item) → pair_same i k ≡ true → not (pair_same j k) ≡ true
    other k e =
        subst (λ (x : Item). not (pair_same j x) ≡ true) ((pair_same_iff i k).0 e) (rw n refl)

module _ {M : Type 0} (env : Env M) where
  -- Only the directories that Save found gone are lost, and nothing without a durable tier.
  pub record Uploads (w w' : World) : Type 0 where
    pub same_db : w'.db ≡ w.db
    pub same_work : w'.work ≡ w.work
    pub same_repos : w'.repos ≡ w.repos
    pub same_state : w'.state_dirs ≡ w.state_dirs
    pub keeps :
        (i : Item) → was_gone (env.save i) ≡ false → has i w.local ≡ true → has i w'.local ≡ true
    pub bare : w'.tier ≡ none → w' ≡ w

  Uploads-refl : (w : World) → Uploads w w
  Uploads-refl w = record {
    same_db = refl;
    same_work = refl;
    same_repos = refl;
    same_state = refl;
    keeps = λ i g h. h;
    bare = λ e. refl;
  }

  Uploads-trans : {u v w : World} → Uploads u v → Uploads v w → Uploads u w
  Uploads-trans {u} {v} {w} f g = record {
    same_db = g.same_db ∙ f.same_db;
    same_work = g.same_work ∙ f.same_work;
    same_repos = g.same_repos ∙ f.same_repos;
    same_state = g.same_state ∙ f.same_state;
    keeps = λ i n h. g.keeps i n (f.keeps i n h);
    bare = λ e. g.bare e ∙ f.bare (subst (λ (x : World). x.tier ≡ none) (g.bare e) e);
  }

  after_save-Uploads :
      (i : Item) (s : Saved) (objects : List Item) (w : World)
      → env.save i ≡ s
      → w.tier ≡ some objects
      → Uploads w (after_save env s i objects w).0
  after_save-Uploads i saved objects w e t = record {
    same_db = refl;
    same_work = refl;
    same_repos = refl;
    same_state = refl;
    keeps = λ j n h. h;
    bare = λ b. absurd (cc);
  }
  after_save-Uploads i source_gone objects w e t = record {
    same_db = refl;
    same_work = refl;
    same_repos = refl;
    same_state = refl;
    keeps = λ j n h. has-without_item j i w.local (other j n) h;
    bare = λ b. absurd (cc);
  }
    where
      other : (j : Item) → was_gone (env.save j) ≡ false → pair_same i j ≡ false
      other j n = differs (pair_same i j) refl
        where
          differs : (b : Bool) → pair_same i j ≡ b → b ≡ false
          differs false q = refl
          differs true q =
              let same : i ≡ j = (pair_same_iff i j).0 q in
              let gone : was_gone (env.save j) ≡ true =
                subst (λ (k : Item). was_gone (env.save k) ≡ true) same (rw e refl) in
              absurd (cc)
  after_save-Uploads i save_failed objects w e t = Uploads-refl w

  persist_side-Uploads : (i : Item) (w : World) → Uploads w (persist_side env i w).0
  unfolding persist_side
  persist_side-Uploads i w = go w.tier refl
    where
      go : (t : Option (List Item)) → w.tier ≡ t → Uploads w (persist_to env t i w).0
      go none e = Uploads-refl w
      go (some objects) e =
          if_cases (λ (m : Outcome (Unit {0})). Uploads w m.0) (str_eq (hash_of i) "") _ _
            (λ h. Uploads-refl w) (λ h. after_save-Uploads i (env.save i) objects w refl e)

  pub ensure_durable-Uploads :
      (repo fe be : String) (w : World) → Uploads w (ensure_durable env repo fe be w).0
  unfolding ensure_durable
  ensure_durable-Uploads repo fe be w =
      both (persist_side env (item repo "fe" fe) w) (persist_side-Uploads (item repo "fe" fe) w)
    where
      both :
          (m : Outcome (Unit {0}))
          → Uploads w m.0
          → Uploads w (m >>= λ _. persist_side env (item repo "be" be)).0
      both (u, ok a) h = Uploads-trans h (persist_side-Uploads (item repo "be" be) u)
      both (u, err x) h = h

  pub Uploads-Advances : {w w' : World} → Uploads w w' → Advances w w'
  Uploads-Advances f = record {
    quiet = λ j h. subst (λ db. queued_at j db.deploys ≡ true) f.same_db h;
    same_work = f.same_work;
  }
