-- ===== src/Supervise/Init/Once.antt =====
-- Init runs once per backend, and again after a revocation.
use local_preview.Base.{
  ◌≡◌, inl, inr, refl, Bool, true, false, ◌&&◌, not, Option, none, some, List, [], ◌∷◌, arith,
  if◌then◌else◌, All, Table, find, find-put, find-delete, same_refl, sym, subst, ◌∙◌, Option-cases,
  Bool-cases,
}
use local_preview.Supervise.Keys.{Key, key_same, key_same_iff, Key_comparable}
use local_preview.Supervise.Init.{
  WireSpec, Ledger, offered_done, init_is_revoked, offer_wire_spec, set_wire, set_row_done,
  mark_init_done, revoke_init_done, adopt_remote, load_init, InitOp, offer, mark, revoke, adopt,
  apply, apply_all,
}

-- The operation is not the end of an init of this backend.
abbrev pub IsNoMark : Key → InitOp → Type 0
IsNoMark k (offer j s) = Unit
IsNoMark k (mark j from_wire) = key_same j k ≡ false
IsNoMark k (revoke j from_wire) = Unit
IsNoMark k (adopt j) = Unit

-- The operation does not revoke the init of this backend.
abbrev pub IsNoRevoke : Key → InitOp → Type 0
IsNoRevoke k (offer j s) = Unit
IsNoRevoke k (mark j from_wire) = Unit
IsNoRevoke k (revoke j from_wire) = key_same j k ≡ false
IsNoRevoke k (adopt j) = Unit

-- What a start reads: that init is done.
abbrev pub reads_done : Option (Bool × Bool) → Bool
reads_done none = false
reads_done (some (done, from_wire)) = done

module _ (k : Key) where
  apply-revoked :
      (op : InitOp) (l : Ledger)
      → IsNoMark k op
      → init_is_revoked k l ≡ true
      → init_is_revoked k (apply op l) ≡ true
  unfolding init_is_revoked offer_wire_spec mark_init_done revoke_init_done
  apply-revoked (offer j s) l n h = h
  apply-revoked (mark j fw) l n h = ground (arith, find-delete j k l.init_revoked)
  apply-revoked (revoke j fw) l n h = ground (arith, find-put j k tt l.init_revoked)
  apply-revoked (adopt j) l n h = h

  apply_all-revoked :
      (ops : List InitOp) (l : Ledger)
      → All (IsNoMark k) ops
      → init_is_revoked k l ≡ true
      → init_is_revoked k (apply_all ops l) ≡ true
  apply_all-revoked [] l n h = h
  apply_all-revoked (op ∷ ops) l n h =
      apply_all-revoked ops (apply op l) n.1 (apply-revoked op l n.0 h)

  unread : (l : Ledger) → init_is_revoked k l ≡ true → reads_done (load_init k l) ≡ false
  unfolding load_init
  unread l h = ground arith

  revoke-revoked :
      (from_wire : Bool) (l : Ledger) → init_is_revoked k (revoke_init_done k from_wire l) ≡ true
  unfolding init_is_revoked revoke_init_done
  revoke-revoked fw l = ground (arith, find-put k k tt l.init_revoked, same_refl k)

-- After a start that skipped init has failed, a later start finds init not done, whatever is offered,
-- adopted or revoked in between, until an init of this backend has run.
pub init_revoked_sticks :
    (k : Key) (from_wire : Bool) (l : Ledger) (ops : List InitOp)
    → All (IsNoMark k) ops
    → reads_done (load_init k (apply_all ops (revoke_init_done k from_wire l))) ≡ false
init_revoked_sticks k fw l ops n =
    unread k (apply_all ops (revoke_init_done k fw l))
      (apply_all-revoked k ops (revoke_init_done k fw l) n (revoke-revoked k fw l))

abbrev Recorded : Option Bool → Option WireSpec → Type 0
Recorded (some done) spec = done ≡ true
Recorded none none = ⊥
Recorded none (some s) = s.init_done ≡ true

abbrev IsDone : Key → Ledger → Type 0
IsDone k l = (init_is_revoked k l ≡ false) × Recorded (find k l.rows) (find k l.wire_specs)

abbrev with_done : Bool → Option WireSpec → Option WireSpec
with_done done none = none
with_done done (some s) = some (record s { init_done = done })

abbrev with_row : Bool → Option Bool → Option Bool
with_row done none = none
with_row done (some before) = some done

find-set_wire :
    (done : Bool) (k j : Key) (specs : Table Key WireSpec)
    → find j (set_wire done k specs)
      ≡ (if key_same k j then with_done done (find j specs) else find j specs)
find-set_wire done k j specs = elim (Option-cases (find k specs)) [
  | inl e ↦ ground (arith, key_same_iff k j)
  | inr (s, e) ↦
      ground (arith, key_same_iff k j, find-put k j (record s { init_done = done }) specs)
]

find-set_row_done :
    (done : Bool) (k j : Key) (rows : Table Key Bool)
    → find j (set_row_done done k rows)
      ≡ (if key_same k j then with_row done (find j rows) else find j rows)
find-set_row_done done k j rows = ground (arith, key_same_iff k j, find-put k j done rows)

Recorded-with_row :
    (o : Option Bool) (spec : Option WireSpec) → Recorded o spec → Recorded (with_row true o) spec
Recorded-with_row none spec r = r
Recorded-with_row (some before) spec r = refl

Recorded-with_done :
    (o : Option Bool) (spec : Option WireSpec) → Recorded o spec → Recorded o (with_done true spec)
Recorded-with_done none none r = r
Recorded-with_done none (some s) r = refl
Recorded-with_done (some done) spec r = r

Recorded-offered :
    (o : Option Bool) (spec : Option WireSpec) (s : WireSpec)
    → Recorded o spec
    → Recorded o (some (record s { init_done = offered_done false spec s }))
Recorded-offered none none s r = absurd r
Recorded-offered none (some prev) s r = ground arith
Recorded-offered (some done) spec s r = r

Recorded-set_row :
    (from_wire : Bool) (k j : Key) (rows : Table Key Bool) (spec : Option WireSpec)
    → Recorded (find j rows) spec
    → Recorded (find j (if from_wire then rows else set_row_done true k rows)) spec
Recorded-set_row true k j rows spec r = r
Recorded-set_row false k j rows spec r =
    rw (find-set_row_done true k j rows)
      (elim (key_same k j)
        as (λ b. Recorded (if b then with_row true (find j rows) else find j rows) spec) [
          | true ↦ Recorded-with_row (find j rows) spec r
          | false ↦ r
        ])

Recorded-set_wire :
    (k j : Key) (o : Option Bool) (specs : Table Key WireSpec)
    → Recorded o (find j specs)
    → Recorded o (find j (set_wire true k specs))
Recorded-set_wire k j o specs r =
    rw (find-set_wire true k j specs)
      (elim (key_same k j)
        as (λ b. Recorded o (if b then with_done true (find j specs) else find j specs)) [
          | true ↦ Recorded-with_done o (find j specs) r
          | false ↦ r
        ])

offer-IsDone_own :
    (j : Key) (l : Ledger) (s : WireSpec) → IsDone j l → IsDone j (offer_wire_spec j s l)
unfolding offer_wire_spec
offer-IsDone_own j l s d = (
  unrevoked_still,
  rw (find-put j j _ l.wire_specs, same_refl j, d.0)
      (Recorded-offered (find j l.rows) (find j l.wire_specs) s d.1),
)
  where
    unrevoked_still : init_is_revoked j (offer_wire_spec j s l) ≡ false
    unrevoked_still = unfold init_is_revoked in d.0

module _ (k j : Key) (l : Ledger) (d : IsDone j l) where
  offer-IsDone : (s : WireSpec) → IsDone j (offer_wire_spec k s l)
  offer-IsDone s = elim (Bool-cases (key_same k j)) [
    | inl same ↦
        subst (λ i. IsDone j (offer_wire_spec i s l)) (sym ((key_same_iff k j).0 same))
          (offer-IsDone_own j l s d)
    | inr other ↦
        unfold offer_wire_spec in
        ((unfold init_is_revoked in d.0), rw (find-put k j _ l.wire_specs, other) d.1)
  ]

  mark-IsDone : (from_wire : Bool) → IsDone j (mark_init_done k from_wire l)
  unfolding mark_init_done init_is_revoked
  mark-IsDone fw = (
    ground (arith, d.0, find-delete k j l.init_revoked),
    Recorded-set_row fw k j l.rows _ (Recorded-set_wire k j (find j l.rows) l.wire_specs d.1),
  )

  revoke-IsDone :
      (from_wire : Bool) → key_same k j ≡ false → IsDone j (revoke_init_done k from_wire l)
  unfolding revoke_init_done init_is_revoked
  revoke-IsDone fw other = (
    ground (arith, d.0, find-put k j tt l.init_revoked),
    rw (find-set_wire false k j l.wire_specs, other) (row_kept fw),
  )
    where
      row_kept :
          (b : Bool)
          → Recorded
              (find j (if b then l.rows else set_row_done false k l.rows))
              (find j l.wire_specs)
      row_kept true = d.1
      row_kept false = rw (find-set_row_done false k j l.rows, other) d.1

  adopt-IsDone : IsDone j (adopt_remote k l)
  unfolding init_is_revoked
  adopt-IsDone = (d.0, Recorded-set_row false k j l.rows _ d.1)

apply-IsDone :
    (k : Key) (op : InitOp) (l : Ledger) → IsNoRevoke k op → IsDone k l → IsDone k (apply op l)
apply-IsDone k (offer j s) l n d = offer-IsDone j k l d s
apply-IsDone k (mark j fw) l n d = mark-IsDone j k l d fw
apply-IsDone k (revoke j fw) l n d = revoke-IsDone j k l d fw n
apply-IsDone k (adopt j) l n d = adopt-IsDone j k l d

apply_all-IsDone :
    (k : Key) (ops : List InitOp) (l : Ledger)
    → All (IsNoRevoke k) ops
    → IsDone k l
    → IsDone k (apply_all ops l)
apply_all-IsDone k [] l n d = d
apply_all-IsDone k (op ∷ ops) l n d =
    apply_all-IsDone k ops (apply op l) n.1 (apply-IsDone k op l n.0 d)

abbrev loaded : Option Bool → Option WireSpec → Bool → Option (Bool × Bool)
loaded (some done) spec revoked = some (done && not revoked, false)
loaded none none revoked = none
loaded none (some s) revoked = some (s.init_done && not revoked, true)

load_init_lem :
    (k : Key) (l : Ledger)
    → load_init k l ≡ loaded (find k l.rows) (find k l.wire_specs) (init_is_revoked k l)
unfolding load_init
load_init_lem k l = ground arith

reads_loaded :
    (o : Option Bool) (spec : Option WireSpec)
    → Recorded o spec
    → reads_done (loaded o spec false) ≡ true
reads_loaded none none r = absurd r
reads_loaded none (some s) r = ground arith
reads_loaded (some done) spec r = ground arith

Recorded-marked :
    (o : Option Bool) (spec : Option WireSpec) (revoked done from_wire : Bool)
    → loaded o spec revoked ≡ some (done, from_wire)
    → Recorded (if from_wire then o else with_row true o) (with_done true spec)
Recorded-marked none none revoked done fw h = absurd (cc)
Recorded-marked none (some s) revoked done true h = refl
Recorded-marked none (some s) revoked done false h = refl
Recorded-marked (some b) spec revoked done true h = absurd (ground arith)
Recorded-marked (some b) spec revoked done false h = refl

IsDone-reads : (k : Key) (l : Ledger) → IsDone k l → reads_done (load_init k l) ≡ true
IsDone-reads k l d =
    rw (load_init_lem k l, d.0) (reads_loaded (find k l.rows) (find k l.wire_specs) d.1)

marked-IsDone :
    (k : Key) (from_wire done : Bool) (l : Ledger)
    → load_init k l ≡ some (done, from_wire)
    → IsDone k (mark_init_done k from_wire l)
unfolding mark_init_done
marked-IsDone k fw done l h = (
  unfold init_is_revoked in ground (arith, find-delete k k l.init_revoked, same_refl k),
  rw (find-set_wire true k k l.wire_specs, same_refl k)
      (row_marked fw (
        Recorded-marked (find k l.rows) (find k l.wire_specs) (init_is_revoked k l) done fw
          (sym (load_init_lem k l) ∙ h))),
)
  where
    row_marked :
        (b : Bool)
        → Recorded
            (if b then find k l.rows else with_row true (find k l.rows))
            (with_done true (find k l.wire_specs))
        → Recorded
            (find k (if b then l.rows else set_row_done true k l.rows))
            (with_done true (find k l.wire_specs))
    row_marked true r = r
    row_marked false r = rw (find-set_row_done true k k l.rows, same_refl k) r

-- After an init that a start ran to its end and recorded, every later start finds init done, whatever
-- is offered, adopted, recorded or revoked in between, until this backend's init is revoked.
pub init_done_sticks :
    (k : Key) (from_wire done : Bool) (l : Ledger) (ops : List InitOp)
    → load_init k l ≡ some (done, from_wire)
    → All (IsNoRevoke k) ops
    → reads_done (load_init k (apply_all ops (mark_init_done k from_wire l))) ≡ true
init_done_sticks k fw done l ops h n =
    IsDone-reads k (apply_all ops (mark_init_done k fw l))
      (apply_all-IsDone k ops (mark_init_done k fw l) n (marked-IsDone k fw done l h))
