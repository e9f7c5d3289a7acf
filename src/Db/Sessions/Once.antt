-- ===== src/Db/Sessions/Once.antt =====
-- A preview grant is redeemed at most once.
use local_preview.Base.{
  ℕ, ◌≤◌, ◌≡◌, refl, String, Bool, false, not, none, some, List, [], ◌∷◌, any, keep, str_eq, arith,
}
use local_preview.Db.Sessions.{
  Logins, Session, Scope, Grant, redeems, is_live, first_grant, redeem_preview_grant,
  create_session, delete_session_by_token_hash, delete_expired_sessions, create_preview_grant,
  delete_expired_preview_grants,
}

-- No grant of the code is redeemable at the time or later.
abbrev pub IsSpent : String → ℕ → Logins → Type 0
IsSpent code now l = any (redeems now code) l.grants ≡ false

spent_later :
    (code : String) (now later : ℕ)
    → now ≤ later
    → (gs : List Grant) → any (redeems now code) gs ≡ false
    → any (redeems later code) gs ≡ false
spent_later code now later h [] e = refl
spent_later code now later h (g ∷ gs) e = ground (arith, spent_later code now later h gs)

spent_after :
    (code : String) (now : ℕ) (gs : List Grant)
    → any (redeems now code) (keep (λ g. not (redeems now code g)) gs) ≡ false
spent_after code now [] = refl
spent_after code now (g ∷ gs) = ground (arith, spent_after code now gs)

spent_keep :
    (p : Grant → Bool) (code : String) (now : ℕ) (gs : List Grant)
    → any (redeems now code) gs ≡ false
    → any (redeems now code) (keep p gs) ≡ false
spent_keep p code now [] e = refl
spent_keep p code now (g ∷ gs) e = ground (arith, spent_keep p code now gs)

-- One call on the tables, other than minting the very code again.
pub data LoginStep (code : String) (l : Logins) : Logins → Type 0 where
  login :
      (t : ℕ) (s made : Session) (ttl : ℕ) (l' : Logins)
      → create_session t s ttl l ≡ some (made, l')
      → LoginStep code l l'
  logout :
      (scope : Scope) (token : String)
      → LoginStep code l (delete_session_by_token_hash scope token l)
  sweep : (t : ℕ) → LoginStep code l (delete_expired_sessions t l)
  mint :
      (t : ℕ) (other : String) (id ttl : ℕ) (l' : Logins)
      → str_eq other code ≡ false
      → create_preview_grant t other id ttl l ≡ some l'
      → LoginStep code l l'
  redeem :
      (t : ℕ) (other : String) (id : ℕ) (l' : Logins)
      → redeem_preview_grant t other l ≡ some (id, l')
      → LoginStep code l l'
  sweep_grants : (t : ℕ) → LoginStep code l (delete_expired_preview_grants t l)

pub data LoginSteps (code : String) (l : Logins) : Logins → Type 0 where
  here : LoginSteps code l l
  next : {l' l'' : Logins} → LoginSteps code l l' → LoginStep code l' l'' → LoginSteps code l l''

step-IsSpent :
    {code : String} (now : ℕ) {l l' : Logins}
    → LoginStep code l l'
    → IsSpent code now l
    → IsSpent code now l'
unfolding create_session delete_session_by_token_hash delete_expired_sessions create_preview_grant
    redeem_preview_grant delete_expired_preview_grants
step-IsSpent now (login t s made ttl l' e) h = ground arith
step-IsSpent now (logout scope token) h = h
step-IsSpent now (sweep t) h = h
step-IsSpent {code} now {l} (mint t other id ttl l' n e) h = ground arith
step-IsSpent {code} now {l} (redeem t other id l' e) h =
    ground (arith, spent_keep (λ g. not (redeems t other g)) code now l.grants)
step-IsSpent {code} now {l} (sweep_grants t) h =
    spent_keep (λ g. is_live t g.expires_at) code now l.grants h

steps-IsSpent :
    {code : String} (now : ℕ) {l l' : Logins}
    → LoginSteps code l l'
    → IsSpent code now l
    → IsSpent code now l'
steps-IsSpent now here h = h
steps-IsSpent now (next r s) h = step-IsSpent now s (steps-IsSpent now r h)

none_found : (p : Grant → Bool) (gs : List Grant) → any p gs ≡ false → first_grant p gs ≡ none
unfolding first_grant
none_found p [] e = refl
none_found p (g ∷ gs) e = ground (arith, none_found p gs)

spent_redeem :
    (code : String) (now later : ℕ) (l : Logins)
    → now ≤ later
    → IsSpent code now l
    → redeem_preview_grant later code l ≡ none
unfolding redeem_preview_grant
spent_redeem code now later l h s =
    rw
      (
        none_found (redeems later code) l.grants (spent_later code now later h l.grants s),
        redeem_preview_grant,
      )
      refl

redeemed-IsSpent :
    (code : String) (now id : ℕ) (l l' : Logins)
    → redeem_preview_grant now code l ≡ some (id, l')
    → IsSpent code now l'
unfolding redeem_preview_grant
redeemed-IsSpent code now id l l' e = ground (arith, spent_after code now l.grants)

-- A preview grant is redeemed at most once. Once a code was redeemed, every redemption of it at that
-- time or later is refused, whatever sequence of logins, logouts, sweeps, redemptions and mintings of
-- other codes comes between.
pub redeem_preview_grant_once :
    (code : String) (now later id : ℕ) (l l' l'' : Logins)
    → redeem_preview_grant now code l ≡ some (id, l')
    → LoginSteps code l' l''
    → now ≤ later
    → redeem_preview_grant later code l'' ≡ none
redeem_preview_grant_once code now later id l l' l'' e steps h =
    spent_redeem code now later l'' h
      (steps-IsSpent now steps (redeemed-IsSpent code now id l l' e))
