-- ===== src/Supervise/Init.antt =====
-- The record of which backends have run their init steps, in internal/supervise/supervise.go: the
-- init_done_at column of this node's backend artifacts, the specs that a control node offered, and
-- the revocations. The run_config text travels unread. Each operation is the section under m.mu and
-- the write of the column after it.
pub mod Once
mod Examples
use local_preview.Base.{
  ℕ, String, Bool, true, false, ◌&&◌, not, Option, none, some, List, [], ◌∷◌, if◌then◌else◌, Table,
  find, put, delete,
}
use local_preview.Supervise.Keys.{Key, Key_comparable}

pub record WireSpec : Type 0 where
  pub run_config : String
  pub init_done : Bool

pub record Ledger : Type 0 where
  pub rows : Table Key Bool
  pub wire_specs : Table Key WireSpec
  pub init_revoked : Table Key (Unit {0})

-- initIsRevoked
unfoldable pub init_is_revoked : Key → Ledger → Bool
init_is_revoked k l = elim (find k l.init_revoked) [ none ↦ false | some u ↦ true ]

-- prev, ok := m.wireSpecs[k]; ok && prev.InitDone
abbrev pub was_done : Option WireSpec → Bool
was_done none = false
was_done (some prev) = prev.init_done

abbrev pub offered_done : Bool → Option WireSpec → WireSpec → Bool
offered_done revoked prev s = if revoked then false else if was_done prev then true else s.init_done

-- OfferWireSpec
unfoldable pub offer_wire_spec : Key → WireSpec → Ledger → Ledger
offer_wire_spec k s l = record l {
  wire_specs =
      put k (record s { init_done = offered_done (init_is_revoked k l) (find k l.wire_specs) s })
        l.wire_specs;
}

-- if s, ok := m.wireSpecs[k]; ok { s.InitDone = done; m.wireSpecs[k] = s }
abbrev pub set_wire : Bool → Key → Table Key WireSpec → Table Key WireSpec
set_wire done k specs = elim (find k specs) [
  | none ↦ specs
  | some s ↦ put k (record s { init_done = done }) specs
]

-- MarkBackendInitDone and ClearBackendInitDone: an UPDATE of the row, if there is one
abbrev pub set_row_done : Bool → Key → Table Key Bool → Table Key Bool
set_row_done done k rows = elim (find k rows) [ none ↦ rows | some before ↦ put k done rows ]

-- markInitDone
unfoldable pub mark_init_done : Key → Bool → Ledger → Ledger
mark_init_done k from_wire l = record {
  init_revoked = delete k l.init_revoked;
  wire_specs = set_wire true k l.wire_specs;
  rows = if from_wire then l.rows else set_row_done true k l.rows;
}

-- revokeInitDone
unfoldable pub revoke_init_done : Key → Bool → Ledger → Ledger
revoke_init_done k from_wire l = record {
  init_revoked = put k tt l.init_revoked;
  wire_specs = set_wire false k l.wire_specs;
  rows = if from_wire then l.rows else set_row_done false k l.rows;
}

-- RevokeInitDone, on the control node
abbrev pub revoke_remote : Key → Ledger → Ledger
revoke_remote k = revoke_init_done k false

-- AdoptRemoteInitDone
abbrev pub adopt_remote : Key → Ledger → Ledger
adopt_remote k l = record l { rows = set_row_done true k l.rows }

-- What loadRunSpec finds for a backend: whether init is done, and whether the spec is the offered one
unfoldable pub load_init : Key → Ledger → Option (Bool × Bool)
load_init k l = elim (find k l.rows) [
  | some done ↦ some (done && not (init_is_revoked k l), false)
  | none ↦ elim (find k l.wire_specs) [
    | none ↦ none
    | some s ↦ some (s.init_done && not (init_is_revoked k l), true)
  ]
]

-- One operation on the record
pub data InitOp : Type 0 where
  offer : Key → WireSpec → InitOp
  mark : Key → Bool → InitOp
  revoke : Key → Bool → InitOp
  adopt : Key → InitOp

abbrev pub apply : InitOp → Ledger → Ledger
apply (offer k s) = offer_wire_spec k s
apply (mark k from_wire) = mark_init_done k from_wire
apply (revoke k from_wire) = revoke_init_done k from_wire
apply (adopt k) = adopt_remote k

abbrev pub apply_all : List InitOp → Ledger → Ledger
apply_all [] l = l
apply_all (op ∷ ops) l = apply_all ops (apply op l)
