-- ===== src/Build/Durable.antt =====
-- What the upload of the sides leaves in the durable tier.
use local_preview.Base.{
  ◌≡◌, refl, subst, String, true, ◌||◌, Option, none, some, List, arith, if_cases, str_eq,
}
use local_preview.Build.{World, Item, item, has, ok, err, Outcome}
use local_preview.Build.Env.{Env, Saved, saved, source_gone, save_failed}
use local_preview.Build.Sides.{
  persist_side, persist_to, after_save, ensure_durable, add_item, hash_of,
}
use local_preview.Build.Grows.{has-add_item}
use local_preview.Build.Served.{Post, Post-bind, has-add_self}
use local_preview.Build.Uploads.{was_gone}

module _ {M : Type 0} (env : Env M) where
  -- The side does not exist, or there is no durable tier, or its directory was collected before the
  -- upload, or the tier has it.
  abbrev pub DurableIn : Item → Option (List Item) → Type 0
  DurableIn i none = Unit
  DurableIn i (some objects) =
      (str_eq (hash_of i) "" || (was_gone (env.save i) || has i objects)) ≡ true

  pub after_save-Durable :
      (i : Item) (s : Saved)
      → env.save i ≡ s
      → (objects : List Item) (w : World) → w.tier ≡ some objects
      → Post (λ u. DurableIn i u.tier) (after_save env s i objects w)
  after_save-Durable i saved e objects w t = ground (arith, has-add_self i objects)
  after_save-Durable i source_gone e objects w t = rw (t, e) (ground arith)
  after_save-Durable i save_failed e objects w t = tt

  pub persist_side-Durable :
      (i : Item) (w : World) → Post (λ u. DurableIn i u.tier) (persist_side env i w)
  unfolding persist_side
  persist_side-Durable i w = go w.tier refl
    where
      go :
          (t : Option (List Item))
          → w.tier ≡ t
          → Post (λ u. DurableIn i u.tier) (persist_to env t i w)
      go none e = rw e tt
      go (some objects) e =
          if_cases (Post (λ u. DurableIn i u.tier)) (str_eq (hash_of i) "") _ _
            (λ h. rw (e, h) refl) (λ h. after_save-Durable i (env.save i) refl objects w e)

  pub persist_side-keeps :
      (i j : Item) (w : World) → DurableIn i w.tier → DurableIn i (persist_side env j w).0.tier
  unfolding persist_side
  persist_side-keeps i j w d = go w.tier refl
    where
      saves :
          (s : Saved) (objects : List Item)
          → w.tier ≡ some objects
          → DurableIn i (after_save env s j objects w).0.tier
      saves saved objects e = more (subst (DurableIn i) e d)
        where
          more : DurableIn i (some objects) → DurableIn i (some (add_item j objects))
          more d = ground (arith, has-add_item i j objects)
      saves source_gone objects e = d
      saves save_failed objects e = d

      go : (t : Option (List Item)) → w.tier ≡ t → DurableIn i (persist_to env t j w).0.tier
      go none e = d
      go (some objects) e =
          if_cases (λ (m : Outcome (Unit {0})). DurableIn i m.0.tier) (str_eq (hash_of j) "") _ _
            (λ h. d) (λ h. saves (env.save j) objects e)

  unfoldable pub Durables : String → String → String → World → Type 0
  Durables repo fe be u =
      DurableIn (item repo "fe" fe) u.tier × DurableIn (item repo "be" be) u.tier

  pub ensure_durable-Durables :
      (repo fe be : String) (w : World)
      → Post (Durables repo fe be) (ensure_durable env repo fe be w)
  unfolding ensure_durable Durables
  ensure_durable-Durables repo fe be w =
      let first = item repo "fe" fe in
      let second = item repo "be" be in
      Post-bind (λ u. DurableIn first u.tier) (Durables repo fe be) (persist_side env first w)
        (λ _. persist_side env second) (persist_side-Durable first w)
        (λ a u d.
          both (persist_side env second u) (persist_side-keeps first second u d)
            (persist_side-Durable second u))
    where
      both :
          (m : Outcome (Unit {0}))
          → DurableIn (item repo "fe" fe) m.0.tier
          → Post (λ u. DurableIn (item repo "be" be) u.tier) m
          → Post (Durables repo fe be) m
      both (w, ok a) d e = (d, e)
      both (w, err x) d e = tt
