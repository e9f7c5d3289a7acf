-- ===== src/Fleet/Quotas/Shares.antt =====
-- The shares of the fleet's floor, and what a push settles.
use local_preview.Base.{
  ℕ, zero, suc, ◌+◌, ◌≤◌, ◌≡◌, refl, ◌∙◌, String, Bool, true, Option, none, some, List, [], ◌∷◌,
  arith, ltb, if◌then◌else◌, keep, take, count, All, All-map, ap, ltb→lt, str_eq, eq_iff, Table,
  find, put, find-put, String_comparable, Bool-cases, inl, inr,
}
use local_preview.Fleet.Registry.{Heartbeat}
use local_preview.Fleet.Quotas.{
  Entry, is_live, insert_entry, sort_entries, quota_of, share, min_warm_quotas, config_for,
  configure,
}

abbrev pub is_of : String → Entry → Bool
is_of id e = str_eq e.worker_id id

quota_of-put :
    (i id : String) (n : ℕ) (quotas : Table String ℕ)
    → quota_of id (put i n quotas) ≡ (if str_eq i id then n else quota_of id quotas)
quota_of-put i id n quotas = ground (arith, find-put i id n quotas)

quota_of-nil : (id : String) → quota_of id [] ≡ 0
unfolding find
quota_of-nil id = refl

share_lem :
    (want : ℕ) (es : List Entry) (quotas : Table String ℕ) (id : String)
    → quota_of id (share want es quotas) ≡ count (is_of id) (take want es) + quota_of id quotas
unfolding share
share_lem zero es quotas id = omega arith
share_lem (suc want) [] quotas id = omega arith
share_lem (suc want) (e ∷ es) quotas id = ground (
  arith,
  eq_iff e.worker_id id,
  quota_of-put e.worker_id id (suc (quota_of e.worker_id quotas)) quotas,
  share_lem want es (put e.worker_id (suc (quota_of e.worker_id quotas)) quotas) id,
)

-- The most recent first.
abbrev pub Descending : List Entry → Type 0
Descending [] = Unit
Descending (e ∷ es) = All (λ f. f.last_touch ≤ e.last_touch) es × Descending es

insert-All :
    (P : Entry → Type 0) (e : Entry) (es : List Entry) → P e → All P es → All P (insert_entry e es)
unfolding insert_entry
insert-All P e [] h a = (h, tt)
insert-All P e (f ∷ fs) h a = elim (Bool-cases (ltb e.last_touch f.last_touch)) [
  | inl t ↦ rw t (a.0, insert-All P e fs h a.1)
  | inr t ↦ rw t (h, a)
]

insert-Descending : (e : Entry) (es : List Entry) → Descending es → Descending (insert_entry e es)
unfolding insert_entry
insert-Descending e [] d = (tt, tt)
insert-Descending e (f ∷ fs) d = elim (Bool-cases (ltb e.last_touch f.last_touch)) [
  | inl t ↦ rw t (
    insert-All (λ g. g.last_touch ≤ f.last_touch) e fs (ground (arith, ltb→lt _ _ t)) d.0,
    insert-Descending e fs d.1,
  )
  | inr t ↦ rw t ((ground arith, older e f fs (ground arith) d.0), d)
]
  where
    older :
        (e f : Entry) (fs : List Entry)
        → f.last_touch ≤ e.last_touch
        → All (λ g. g.last_touch ≤ f.last_touch) fs
        → All (λ g. g.last_touch ≤ e.last_touch) fs
    older e f fs le a =
        All-map (λ g. g.last_touch ≤ f.last_touch) (λ g. g.last_touch ≤ e.last_touch)
          (λ g h. omega arith) fs a

sort-Descending : (es : List Entry) → Descending (sort_entries es)
unfolding sort_entries
sort-Descending [] = tt
sort-Descending (e ∷ es) = insert-Descending e (sort_entries es) (sort-Descending es)

count-insert :
    (p : Entry → Bool) (e : Entry) (es : List Entry)
    → count p (insert_entry e es) ≡ (if p e then suc (count p es) else count p es)
unfolding insert_entry
count-insert p e [] = ground arith
count-insert p e (f ∷ fs) = ground (arith, count-insert p e fs)

count-sort : (p : Entry → Bool) (es : List Entry) → count p (sort_entries es) ≡ count p es
unfolding sort_entries
count-sort p [] = refl
count-sort p (e ∷ es) = ground (arith, count-insert p e (sort_entries es), count-sort p es)

keep-take :
    (p : Entry → Bool) (n : ℕ) (es : List Entry)
    → keep p (take n es) ≡ take (count p (take n es)) (keep p es)
keep-take p zero es = refl
keep-take p (suc n) [] = refl
keep-take p (suc n) (e ∷ es) = elim (Bool-cases (p e)) [
  | inl t ↦ rw t (ap (λ l. e ∷ l) (keep-take p n es))
  | inr t ↦ rw t (keep-take p n es)
]

-- With a floor of `want` in active hours, the live processes stand in an order by recency in which
-- each worker's share of its own most recent ones are exactly its processes among the `want` most
-- recent of the fleet.
pub min_warm_quotas-top :
    (want : ℕ) (report : List Entry) (quotas : Table String ℕ) (id : String)
    → min_warm_quotas (some want) true report ≡ some quotas
    → (ranked : List Entry) × (Descending ranked)
      × ((p : Entry → Bool) → count p ranked ≡ count p (keep is_live report))
      × (keep (is_of id) (take want ranked) ≡ take (quota_of id quotas) (keep (is_of id) ranked))
unfolding min_warm_quotas
min_warm_quotas-top want report quotas id h =
    let ranked = sort_entries (keep is_live report) in
    (
      ranked,
      sort-Descending (keep is_live report),
      λ p. count-sort p (keep is_live report),
      keep-take (is_of id) want ranked
          ∙ ap (λ (n : ℕ). take n (keep (is_of id) ranked)) (share_of ranked h),
    )
  where
    share_of :
        (ranked : List Entry)
        → some (share want ranked []) ≡ some quotas
        → count (is_of id) (take want ranked) ≡ quota_of id quotas
    share_of ranked e = ground (arith, share_lem want ranked [] id, quota_of-nil id)

-- One push settles a worker: once it has applied what a heartbeat poll sends it, the next poll with
-- the same wishes and shares has nothing to send.
pub config_for-settles :
    (max_warm : Option ℕ) (quotas : Option (Table String ℕ)) (idle_seconds : Option ℕ) (id : String)
    (hb : Heartbeat)
    → config_for max_warm quotas idle_seconds id
        (configure (config_for max_warm quotas idle_seconds id hb) hb)
      ≡ record { max_warm = none; min_warm = none; idle_timeout_seconds = none }
config_for-settles max_warm quotas idle_seconds id hb = ground arith
