-- ===== src/Cloudscale/Protection.antt =====
-- reconcileProtection and setProtection of internal/cloudscale/cloudscale.go. The group's own record
-- of which instances are protected is part of the state; whether a call of SetInstanceProtection
-- succeeds is an argument, and a call that fails changes nothing there.
use local_preview.Base.{
  String, Bool, true, false, not, Option, none, some, List, [], ◌∷◌, if◌then◌else◌, Table, find,
  put, String_comparable,
}

pub record Publisher : Type 0 where
  pub protected : Table String Bool
  pub group : Table String Bool

-- known && prev == isBusy
abbrev pub is_settled : Option Bool → Bool → Bool
is_settled none busy = false
is_settled (some prev) busy = if prev then busy else not busy

-- The two batches: the instances whose target state is `on` and that are not known to be in it.
abbrev pub batch : Bool → Table String Bool → Table String Bool → List String
batch on protected [] = []
batch on protected ((id, busy) ∷ m) =
    if is_settled (find id protected) busy
    then batch on protected m
    else if (if busy then on else not on)
    then id ∷ batch on protected m
    else batch on protected m

-- for id := range p.protected { if _, ok := busy[id]; !ok { delete(p.protected, id) } }
abbrev pub forget_gone : Table String Bool → Table String Bool → Table String Bool
forget_gone busy [] = []
forget_gone busy ((id, on) ∷ m) = elim (find id busy) [
  | none ↦ forget_gone busy m
  | some b ↦ (id, on) ∷ forget_gone busy m
]

abbrev pub put_all : Bool → List String → Table String Bool → Table String Bool
put_all on [] m = m
put_all on (id ∷ ids) m = put_all on ids (put id on m)

-- setProtection; no call is made for an empty batch.
unfoldable pub set_protection : Bool → List String → Bool → Publisher → Publisher
set_protection ok [] on p = p
set_protection ok (id ∷ ids) on p =
    if ok
    then record {
      protected = put_all on (id ∷ ids) p.protected;
      group = put_all on (id ∷ ids) p.group;
    }
    else p

-- reconcileProtection, on the busy map of this tick; whether the call for each batch succeeds
unfoldable pub reconcile_protection : Bool → Bool → Table String Bool → Publisher → Publisher
unfolding set_protection
reconcile_protection protect_ok release_ok busy p =
    let pruned = record p { protected = forget_gone busy p.protected } in
    set_protection release_ok (batch false p.protected busy) false
      (set_protection protect_ok (batch true p.protected busy) true pruned)
