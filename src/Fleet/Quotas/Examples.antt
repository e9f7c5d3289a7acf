-- ===== src/Fleet/Quotas/Examples.antt =====
-- A floor of two over two workers.
use local_preview.Base.{
  ◌≡◌, refl, String, Bool, true, some, List, [], ◌∷◌, count, keep, take, ℕ, Table, find, put,
}
use local_preview.Supervise.Manager.{running, starting, crashed}
use local_preview.Fleet.Quotas.{
  Entry, is_live, insert_entry, sort_entries, quota_of, share, min_warm_quotas,
}
use local_preview.Fleet.Quotas.Shares.{is_of, Descending, min_warm_quotas-top}

abbrev report : List Entry
report =
    record { worker_id = "w1"; status = running; last_touch = 5 }
    ∷ record { worker_id = "w2"; status = crashed; last_touch = 9 }
    ∷ record { worker_id = "w1"; status = starting; last_touch = 8 }
    ∷ record { worker_id = "w2"; status = running; last_touch = 7 }
    ∷ []

abbrev quotas : Table String ℕ
quotas = ("w1", 1) ∷ ("w2", 1) ∷ []

shared : min_warm_quotas (some 2) true report ≡ some quotas
unfolding min_warm_quotas sort_entries insert_entry share find put
shared = refl

min_warm_quotas-top_example :
    (ranked : List Entry) × (Descending ranked)
    × ((p : Entry → Bool) → count p ranked ≡ count p (keep is_live report))
    × (keep (is_of "w1") (take 2 ranked) ≡ take (quota_of "w1" quotas) (keep (is_of "w1") ranked))
min_warm_quotas-top_example = min_warm_quotas-top 2 report quotas "w1" shared
