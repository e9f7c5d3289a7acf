-- ===== src/Supervise/Keys.antt =====
-- Key, BackendKey and FrontendKey of internal/supervise/supervise.go.
use local_preview.Base.{
  ℕ, ◌≡◌, ◌↔◌, String, Bool, true, false, ◌&&◌, arith, ◌==◌, ==_iff, str_eq, eq_iff, not,
  Comparable,
}

pub data Side : Type 0 where
  backend frontend : Side

abbrev pub side_same : Side → Side → Bool
side_same backend backend = true
side_same backend frontend = false
side_same frontend backend = false
side_same frontend frontend = true

side_same_iff : (a b : Side) → (side_same a b ≡ true) ↔ (a ≡ b)
side_same_iff backend backend = ground arith
side_same_iff backend frontend = ground arith
side_same_iff frontend backend = ground arith
side_same_iff frontend frontend = ground arith

pub record Key : Type 0 where
  pub repo_id : ℕ
  pub side : Side
  pub hash : String
  pub peer : String

abbrev pub backend_key : ℕ → String → Key
backend_key repo_id be_hash = record {
  repo_id = repo_id;
  side = backend;
  hash = be_hash;
  peer = "";
}

abbrev pub frontend_key : ℕ → String → String → Key
frontend_key repo_id fe_hash be_hash = record {
  repo_id = repo_id;
  side = frontend;
  hash = fe_hash;
  peer = be_hash;
}

unfoldable pub key_same : Key → Key → Bool
key_same a b =
    a.repo_id == b.repo_id
    && side_same a.side b.side
    && str_eq a.hash b.hash
    && str_eq a.peer b.peer

pub key_same_iff : (a b : Key) → (key_same a b ≡ true) ↔ (a ≡ b)
unfolding key_same
key_same_iff a b = ground (
  arith,
  ==_iff a.repo_id b.repo_id,
  side_same_iff a.side b.side,
  eq_iff a.hash b.hash,
  eq_iff a.peer b.peer,
)

instance abbrev pub Key_comparable : Comparable Key
Key_comparable = record { same = key_same; same_iff = key_same_iff }

-- k.Side == SideFrontend && k.Peer != ""
abbrev pub is_paired_frontend : Key → Bool
is_paired_frontend k = side_same k.side frontend && not (str_eq k.peer "")
