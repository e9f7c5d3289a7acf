-- ===== src/Cloudscale/Examples.antt =====
-- A tick in which one instance turns idle and one leaves the fleet.
use local_preview.Base.{
  ◌≡◌, refl, String, Bool, true, false, [], ◌∷◌, Table, find, String_comparable,
}
use local_preview.Cloudscale.Protection.{Publisher, reconcile_protection}
use local_preview.Cloudscale.Synced.{IsSynced, IsMap, reconcile-settles}

abbrev publisher : Publisher
publisher = record {
  protected = ("i-1", true) ∷ ("i-2", true) ∷ [];
  group = ("i-1", true) ∷ ("i-2", true) ∷ [];
}

abbrev busy : Table String Bool
busy = ("i-1", false) ∷ []

busy-IsMap : IsMap busy
unfolding find
busy-IsMap = (refl, tt)

publisher-IsSynced : IsSynced publisher
publisher-IsSynced id on h = h

reconcile-settles_example :
    find "i-1" (reconcile_protection true true busy publisher).protected ≡ find "i-1" busy
reconcile-settles_example = reconcile-settles busy publisher "i-1" busy-IsMap
