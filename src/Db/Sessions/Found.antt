-- ===== src/Db/Sessions/Found.antt =====
-- What the queries of internal/db/sessions.go find: sessions by token and by id, and grants by code.
use local_preview.Base.{
  ℕ, ◌≡◌, ◌<◌, refl, Bool-cases, String, Bool, true, ◌&&◌, Option, none, some, List, [], ◌∷◌, arith,
  ==_iff, inl, inr, ◌⊎◌, ◌==◌, subst,
}
use text.Mathlib.TextEquality.{eq_iff}
use local_preview.Db.Sessions.{
  Logins, Session, Grant, first_grant, redeems, Scope, preview, apex, same_scope, is_live,
  names_token, first_session, redeem_preview_grant, create_session, without_grant,
}

-- Some element of the list has the property.
abbrev pub Has {ℓ} : {A : Type ℓ} → (A → Type 0) → List A → Type 0
Has P [] = ⊥
Has P (x ∷ xs) = P x ⊎ Has P xs

-- A session of the table that opens a preview: of the preview scope, for the token, and not expired.
abbrev pub Opens : ℕ → String → Session → Type 0
Opens now token s = (s.scope ≡ preview) × (s.token_hash ≡ token) × (now < s.expires_at)

scope_of : (s : Scope) → same_scope s preview ≡ true → s ≡ preview
scope_of apex h = cc
scope_of preview h = refl

pub first-Has :
    (P : Session → Type 0) (p : Session → Bool)
    → ((s : Session) → p s ≡ true → P s)
    → (s : Session) (ss : List Session) → first_session p ss ≡ some s
    → Has P ss
unfolding first_session
first-Has P p f s [] e = cc
first-Has P p f s (x ∷ ss) e = elim (Bool-cases (p x)) [
  | inl y ↦ inl (f x y)
  | inr n ↦ inr (first-Has P p f s ss (ground arith))
]

first_passes :
    (p : Session → Bool) (s : Session) (ss : List Session)
    → first_session p ss ≡ some s
    → p s ≡ true
unfolding first_session
first_passes p s [] e = cc
first_passes p s (x ∷ ss) e = ground (arith, first_passes p s ss)

pub names-Opens :
    (now : ℕ) (token : String) (s : Session)
    → names_token now preview token s ≡ true
    → Opens now token s
names-Opens now token s h =
    (scope_of s.scope (ground arith), (eq_iff s.token_hash token).0 (ground arith), ground arith)

module _ (now : ℕ) where
  pub created_lem :
      (s made : Session) (ttl : ℕ) (l l' : Logins)
      → create_session now s ttl l ≡ some (made, l')
      → (l'.sessions ≡ made ∷ l.sessions)
        × (l'.grants ≡ l.grants)
        × (made.scope ≡ s.scope)
        × (made.github_login ≡ s.github_login)
        × (made.github_user_id ≡ s.github_user_id)
  unfolding create_session
  created_lem s made ttl l l' e = ground arith

  -- A grant of the code that is in the table and not expired, minted for the session `id`.
  abbrev pub Minted : String → ℕ → List Grant → Type 0
  Minted code id = Has (λ g. (g.code_hash ≡ code) × (g.apex_session_id ≡ id) × (now < g.expires_at))

  first_grant-Minted :
      (code : String) (g : Grant) (gs : List Grant)
      → first_grant (redeems now code) gs ≡ some g
      → Minted code g.apex_session_id gs
  unfolding first_grant
  first_grant-Minted code g [] e = absurd (ground arith)
  first_grant-Minted code g (x ∷ gs) e = elim (Bool-cases (redeems now code x)) [
    | inl y ↦ inl (ground (arith, eq_iff x.code_hash code))
    | inr n ↦ inr (first_grant-Minted code g gs (ground arith))
  ]

  pub redeem-Minted :
      (code : String) (id : ℕ) (l m : Logins)
      → redeem_preview_grant now code l ≡ some (id, m)
      → Minted code id l.grants
  unfolding redeem_preview_grant
  redeem-Minted code id l m e = go (first_grant (redeems now code) l.grants) refl e
    where
      go :
          (o : Option Grant)
          → first_grant (redeems now code) l.grants ≡ o
          → let r : Option (ℕ × Logins) = elim o [
            | none ↦ none
            | some g ↦ some (g.apex_session_id, without_grant now code l)
          ] in
            r ≡ some (id, m) → Minted code id l.grants
      go none f h = absurd (ground arith)
      go (some g) f h =
          let same : g.apex_session_id ≡ id = ground arith in
          subst (λ (i : ℕ). Minted code i l.grants) same (first_grant-Minted code g l.grants f)

  pub found-id :
      (id : ℕ) (of : Session) (ss : List Session)
      → first_session (λ s. s.id == id && is_live now s.expires_at) ss ≡ some of
      → of.id ≡ id
  unfolding first_session
  found-id id of [] e = absurd (ground arith)
  found-id id of (x ∷ ss) e = elim (Bool-cases (x.id == id && is_live now x.expires_at)) [
    | inl y ↦ ground (arith, ==_iff x.id id)
    | inr n ↦ found-id id of ss (ground arith)
  ]

  -- The session `of` is in the table and not expired.
  abbrev pub Lives : Session → List Session → Type 0
  Lives of = Has (λ s. (s ≡ of) × (now < s.expires_at))

  pub found-Lives :
      (p : Session → Bool)
      → ((s : Session) → p s ≡ true → now < s.expires_at)
      → (of : Session) (ss : List Session) → first_session p ss ≡ some of
      → Lives of ss
  unfolding first_session
  found-Lives p f of [] e = cc
  found-Lives p f of (x ∷ ss) e = elim (Bool-cases (p x)) [
    | inl y ↦ inl (ground arith, f x y)
    | inr n ↦ inr (found-Lives p f of ss (ground arith))
  ]

  pub redeem_leaves :
      (code : String) (id : ℕ) (l m : Logins)
      → redeem_preview_grant now code l ≡ some (id, m)
      → m ≡ without_grant now code l
  unfolding redeem_preview_grant
  redeem_leaves code id l m e = ground arith
