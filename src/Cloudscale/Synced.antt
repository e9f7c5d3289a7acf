-- ===== src/Cloudscale/Synced.antt =====
-- The publisher's cache never claims more than the group has, and a tick without failures settles
-- every instance.
use local_preview.Base.{
  ◌≡◌, refl, String, Bool, true, false, not, ◌&&◌, Option, none, some, List, [], ◌∷◌, arith,
  if◌then◌else◌, any, str_eq, eq_iff, Table, find, put, find-put, String_comparable, Bool-cases,
  inl, inr, ◌∙◌, subst, sym,
}
use local_preview.Cloudscale.Protection.{
  Publisher, is_settled, batch, forget_gone, put_all, set_protection, reconcile_protection,
}

abbrev has : String → List String → Bool
has id ids = any (λ i. str_eq i id) ids

find-put_all :
    (on : Bool) (id : String) (ids : List String) (m : Table String Bool)
    → find id (put_all on ids m) ≡ (if has id ids then some on else find id m)
find-put_all on id [] m = refl
find-put_all on id (i ∷ ids) m =
    ground (arith, find-put_all on id ids (put i on m), find-put i id on m)

-- What the publisher remembers of an instance is what the group has for it.
abbrev pub IsSynced : Publisher → Type 0
IsSynced p = (id : String) (on : Bool) → find id p.protected ≡ some on → find id p.group ≡ some on

set_protection-IsSynced :
    (ok : Bool) (ids : List String) (on : Bool) (p : Publisher)
    → IsSynced p
    → IsSynced (set_protection ok ids on p)
unfolding set_protection
set_protection-IsSynced ok [] on p s id b h = s id b h
set_protection-IsSynced false (i ∷ ids) on p s id b h = s id b h
set_protection-IsSynced true (i ∷ ids) on p s id b h =
    ground (
      arith,
      find-put_all on id (i ∷ ids) p.protected,
      find-put_all on id (i ∷ ids) p.group,
      s id b,
    )

find-forget_gone :
    (busy : Table String Bool) (id : String) (m : Table String Bool)
    → find id (forget_gone busy m)
      ≡ elim (find id busy) as (λ o. Option Bool) [ none ↦ none | some b ↦ find id m ]
unfolding find
find-forget_gone busy id [] = ground arith
find-forget_gone busy id ((i, on) ∷ m) = ground (arith, eq_iff i id, find-forget_gone busy id m)

forget_gone-IsSynced :
    (busy : Table String Bool) (p : Publisher)
    → IsSynced p
    → IsSynced (record p { protected = forget_gone busy p.protected })
forget_gone-IsSynced busy p s id on h =
    s id on (ground (arith, find-forget_gone busy id p.protected))

-- Whether or not the calls of a tick succeed, what the publisher remembers of an instance stays what
-- the group has for it.
pub reconcile-IsSynced :
    (protect_ok release_ok : Bool) (busy : Table String Bool) (p : Publisher)
    → IsSynced p
    → IsSynced (reconcile_protection protect_ok release_ok busy p)
unfolding reconcile_protection
reconcile-IsSynced protect_ok release_ok busy p s =
    set_protection-IsSynced release_ok (batch false p.protected busy) false _ (
      set_protection-IsSynced protect_ok (batch true p.protected busy) true _
        (forget_gone-IsSynced busy p s))

-- Every instance is listed once, as in a Go map.
abbrev pub IsMap : Table String Bool → Type 0
IsMap [] = Unit
IsMap ((id, on) ∷ m) = (find id m ≡ none) × IsMap m

has-batch_absent :
    (on : Bool) (protected : Table String Bool) (id : String) (busy : Table String Bool)
    → find id busy ≡ none
    → has id (batch on protected busy) ≡ false
unfolding find
has-batch_absent on protected id [] h = refl
has-batch_absent on protected id ((i, b) ∷ m) h = ground (arith, has-batch_absent on protected id m)

abbrev wants : Bool → Option Bool → Option Bool → Bool
wants on known none = false
wants on known (some busy) = (if busy then on else not on) && not (is_settled known busy)

has-batch_first :
    (on : Bool) (protected : Table String Bool) (id : String) (b : Bool) (m : Table String Bool)
    → find id m ≡ none
    → has id (batch on protected ((id, b) ∷ m)) ≡ wants on (find id protected) (some b)
has-batch_first on protected id b m h =
    ground (arith, (eq_iff id id).1 refl, has-batch_absent on protected id m h)

has-batch :
    (on : Bool) (protected : Table String Bool) (id : String) (busy : Table String Bool)
    → IsMap busy
    → has id (batch on protected busy) ≡ wants on (find id protected) (find id busy)
unfolding find
has-batch on protected id [] u = refl
has-batch on protected id ((i, b) ∷ m) u = elim (Bool-cases (str_eq i id)) [
  | inl same ↦ rw same (
      subst
        (λ i.
          find i m ≡ none
          → has id (batch on protected ((i, b) ∷ m)) ≡ wants on (find id protected) (some b))
        (sym ((eq_iff i id).0 same)) (has-batch_first on protected id b m) u.0)
  | inr other ↦ rw other (ground (arith, has-batch on protected id m u.1))
]

after_calls :
    (rel prot : List String) (p : Publisher) (id : String)
    → find id (set_protection true rel false (set_protection true prot true p)).protected
      ≡ (if has id rel then some false else if has id prot then some true else find id p.protected)
unfolding set_protection
after_calls [] [] p id = refl
after_calls [] (j ∷ prot) p id = find-put_all true id (j ∷ prot) p.protected
after_calls (i ∷ rel) [] p id = find-put_all false id (i ∷ rel) p.protected
after_calls (i ∷ rel) (j ∷ prot) p id =
    find-put_all false id (i ∷ rel) (put_all true (j ∷ prot) p.protected)
    ∙ rw (find-put_all true id (j ∷ prot) p.protected) refl

-- After a tick whose calls succeed, the publisher remembers exactly the instances of the fleet, each
-- as protected just when it is busy, and forgets those that left.
pub reconcile-settles :
    (busy : Table String Bool) (p : Publisher) (id : String)
    → IsMap busy
    → find id (reconcile_protection true true busy p).protected ≡ find id busy
unfolding reconcile_protection
reconcile-settles busy p id u =
    after_calls (batch false p.protected busy) (batch true p.protected busy)
      (record p { protected = forget_gone busy p.protected }) id
    ∙ rw
        (
          has-batch false p.protected id busy u,
          has-batch true p.protected id busy u,
          find-forget_gone busy id p.protected,
        )
        (settled (find id busy) (find id p.protected))
  where
    settled :
        (o known : Option Bool)
        → (if wants false known o
            then some false
            else if wants true known o
            then some true
            else elim o as (λ _. Option Bool) [ none ↦ none | some b ↦ known ])
          ≡ o
    settled o known = ground arith
