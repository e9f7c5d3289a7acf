-- ===== src/Db/Sessions.antt =====
-- internal/db/sessions.go: login sessions and single-use preview grants. `now` is the database's
-- clock and an expiry is a time of it; both are what strftime renders, in seconds.
pub mod Found
pub mod Once
use local_preview.Base.{
  ℕ, ◌+◌, String, Bool, true, false, not, ◌&&◌, ◌||◌, Option, none, some, List, [], ◌∷◌, ◌==◌, ltb,
  leb, if◌then◌else◌, any, keep, str_eq,
}

pub data Scope : Type 0 where
  apex preview : Scope

abbrev pub same_scope : Scope → Scope → Bool
same_scope apex apex = true
same_scope preview preview = true
same_scope _ _ = false

pub record Session : Type 0 where
  pub id : ℕ
  pub token_hash : String
  pub scope : Scope
  pub github_login : String
  pub github_user_id : ℕ
  pub email : String
  pub avatar_url : String
  pub created_at : ℕ
  pub expires_at : ℕ

pub record Grant : Type 0 where
  pub code_hash : String
  pub apex_session_id : ℕ
  pub expires_at : ℕ

pub record Logins : Type 0 where
  pub sessions : List Session
  pub grants : List Grant
  pub next_id : ℕ

-- expires_at > now
abbrev pub is_live : ℕ → ℕ → Bool
is_live now expires_at = ltb now expires_at

-- CreateSession, with the id and the times filled in; a token hash that is taken violates UNIQUE.
unfoldable pub create_session : ℕ → Session → ℕ → Logins → Option (Session × Logins)
create_session now sess ttl l =
    if any (λ s. str_eq s.token_hash sess.token_hash) l.sessions
    then none
    else (let made = record sess { id = l.next_id; created_at = now; expires_at = now + ttl } in
        some (made, record l { sessions = made ∷ l.sessions; next_id = l.next_id + 1 }))

abbrev pub names_token : ℕ → Scope → String → Session → Bool
names_token now scope token_hash s =
    str_eq s.token_hash token_hash && same_scope s.scope scope && is_live now s.expires_at

-- The first row that passes; keys are unique.
unfoldable pub first_session : (Session → Bool) → List Session → Option Session
first_session p [] = none
first_session p (s ∷ ss) = if p s then some s else first_session p ss

unfoldable pub get_session_by_token_hash : ℕ → Scope → String → Logins → Option Session
get_session_by_token_hash now scope token_hash l =
    first_session (names_token now scope token_hash) l.sessions

unfoldable pub get_session_by_id : ℕ → ℕ → Logins → Option Session
get_session_by_id now id l = first_session (λ s. s.id == id && is_live now s.expires_at) l.sessions

unfoldable pub delete_session_by_token_hash : Scope → String → Logins → Logins
delete_session_by_token_hash scope token_hash l = record l {
  sessions =
      keep (λ s. not (str_eq s.token_hash token_hash && same_scope s.scope scope)) l.sessions;
}

unfoldable pub delete_expired_sessions : ℕ → Logins → Logins
delete_expired_sessions now l = record l {
  sessions = keep (λ s. is_live now s.expires_at) l.sessions;
}

-- CreatePreviewGrant: code_hash is the primary key.
unfoldable pub create_preview_grant : ℕ → String → ℕ → ℕ → Logins → Option Logins
create_preview_grant now code_hash apex_session_id ttl l =
    if any (λ g. str_eq g.code_hash code_hash) l.grants
    then none
    else some (record l {
      grants =
          record {
            code_hash = code_hash;
            apex_session_id = apex_session_id;
            expires_at = now + ttl;
          }
          ∷ l.grants;
    })

abbrev pub redeems : ℕ → String → Grant → Bool
redeems now code_hash g = str_eq g.code_hash code_hash && is_live now g.expires_at

unfoldable pub first_grant : (Grant → Bool) → List Grant → Option Grant
first_grant p [] = none
first_grant p (g ∷ gs) = if p g then some g else first_grant p gs

abbrev pub without_grant : ℕ → String → Logins → Logins
without_grant now code_hash l = record l {
  grants = keep (λ g. not (redeems now code_hash g)) l.grants;
}

-- RedeemPreviewGrant: DELETE ... RETURNING
unfoldable pub redeem_preview_grant : ℕ → String → Logins → Option (ℕ × Logins)
redeem_preview_grant now code_hash l = elim (first_grant (redeems now code_hash) l.grants) [
  | none ↦ none
  | some g ↦ some (g.apex_session_id, without_grant now code_hash l)
]

unfoldable pub delete_expired_preview_grants : ℕ → Logins → Logins
delete_expired_preview_grants now l = record l {
  grants = keep (λ g. is_live now g.expires_at) l.grants;
}
