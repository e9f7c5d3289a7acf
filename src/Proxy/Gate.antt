-- ===== src/Proxy/Gate.antt =====
-- What it takes to reach a preview and to get a preview session.
use local_preview.Base.{
  ℕ, ◌≡◌, ◌≢◌, refl, Bool-cases, String, ◌&&◌, Option, none, some, ◌∷◌, str_eq, arith, not, sym,
  keep, Option-cases, inl, inr, ◌==◌, ◌∙◌, subst, ap,
}
use text.Mathlib.TextEquality.{eq_iff}
use local_preview.Db.Sessions.{
  Logins, Session, redeems, preview, is_live, names_token, first_session, get_session_by_token_hash,
  get_session_by_id, redeem_preview_grant,
}
use local_preview.Proxy.Access.{
  Tokens, Credentials, authorized, set_cookie, preview_authorized, redeem_grant, by_cookie,
  after_redeem, after_apex, grant_session, issue, preview_session, preview_session_ttl,
}
use local_preview.Db.Sessions.Found.{
  Has, Opens, first-Has, names-Opens, created_lem, Minted, redeem-Minted, found-id, Lives,
  found-Lives, redeem_leaves,
}

module _ (tokens : Tokens) (now : ℕ) where
  by_cookie-Opens :
      (c : Option String) (l : Logins)
      → by_cookie tokens now c l ≡ authorized
      → (value : String) × (c ≡ some value) × Has (Opens now (tokens.hash_token value)) l.sessions
  unfolding get_session_by_token_hash
  by_cookie-Opens none l e = cc
  by_cookie-Opens (some value) l e =
      elim (Option-cases
        (first_session (names_token now preview (tokens.hash_token value)) l.sessions)) [
          | inl n ↦ absurd (refused n)
          | inr (s, f) ↦ (
            value,
            refl,
            first-Has (Opens now (tokens.hash_token value))
                (names_token now preview (tokens.hash_token value))
                (names-Opens now (tokens.hash_token value)) s l.sessions f,
          )
        ]
    where
      refused :
          first_session (names_token now preview (tokens.hash_token value)) l.sessions ≡ none → ⊥
      refused n = ground arith

  never_authorized : (code : String) (l : Logins) → (redeem_grant tokens now code l).0 ≢ authorized
  unfolding redeem_grant
  never_authorized code l = redeemed (redeem_preview_grant now (tokens.hash_token code) l)
    where
      issued :
          (raw : String) (o : Option (Session × Logins)) (l : Logins)
          → (issue tokens now raw o l).0 ≢ authorized
      issued raw none l = λ e. cc
      issued raw (some (m, l')) l = λ e. cc

      granted :
          (of : Session) (o : Option (String × String)) (l : Logins)
          → (grant_session tokens now of o l).0 ≢ authorized
      granted of none l = λ e. cc
      granted of (some (raw, hash)) l = issued raw _ l

      found : (o : Option Session) (l : Logins) → (after_apex tokens now o l).0 ≢ authorized
      found none l = λ e. cc
      found (some of) l = granted of tokens.new_token l

      redeemed : (o : Option (ℕ × Logins)) → (after_redeem tokens now o l).0 ≢ authorized
      redeemed none = λ e. cc
      redeemed (some (id, l')) = found (get_session_by_id now id l') l'

  -- A request passes the gate only with a live preview session: previewAuthorized says yes only for a
  -- request without a code, whose preview cookie hashes to the token of a session in the table that is of the
  -- preview scope and not expired (a dashboard session never opens a preview), and it changes nothing then.
  pub preview_authorized_gate :
      (r : Credentials) (l l' : Logins)
      → preview_authorized tokens now r l ≡ (authorized, l')
      → (r.code ≡ "")
        × (l' ≡ l)
        × (value : String) × (r.cookie ≡ some value)
        × Has (Opens now (tokens.hash_token value)) l.sessions
  unfolding preview_authorized
  preview_authorized_gate r l l' e = elim (Bool-cases (str_eq r.code "")) [
    | inl y ↦
        let (value, c, opens) = by_cookie-Opens r.cookie l (ground arith) in
        ((eq_iff r.code "").0 y, ground arith, value, c, opens)
    | inr n ↦ absurd (never_authorized r.code l (ground arith))
  ]

  -- What a redemption that sets the cookie did to the tables.
  abbrev pub Issued : String → Logins → Logins → Type 0
  Issued code l l' =
      (of : Session) × (made : Session) × Minted now code of.id l.grants
      × Lives now of l.sessions
      × (l'.grants ≡ keep (λ g. not (redeems now code g)) l.grants)
      × (l'.sessions ≡ made ∷ l.sessions)
      × (made.scope ≡ preview)
      × (made.github_login ≡ of.github_login)
      × (made.github_user_id ≡ of.github_user_id)

  issue_lem :
      (raw raw' : String) (o : Option (Session × Logins)) (l l' : Logins)
      → issue tokens now raw o l ≡ (set_cookie raw', l')
      → (made : Session) × (o ≡ some (made, l'))
  issue_lem raw raw' none l l' e = absurd (ground arith)
  issue_lem raw raw' (some (made, m)) l l' e = (made, ground arith)

  grant_session_lem :
      (raw : String) (of : Session) (o : Option (String × String)) (l l' : Logins)
      → grant_session tokens now of o l ≡ (set_cookie raw, l')
      → (made : Session) × (l'.sessions ≡ made ∷ l.sessions)
        × (l'.grants ≡ l.grants)
        × (made.scope ≡ preview)
        × (made.github_login ≡ of.github_login)
        × (made.github_user_id ≡ of.github_user_id)
  unfolding preview_session
  grant_session_lem raw of none l l' e = absurd (ground arith)
  grant_session_lem raw of (some (raw', hash)) l l' e =
      let (made, c) = issue_lem raw' raw _ l l' e in
      let (a, h, b, d, f) = created_lem now _ made preview_session_ttl l l' c in
      (made, a, h, b, d, f)

  after_apex_lem :
      (raw : String) (o : Option Session) (l l' : Logins)
      → after_apex tokens now o l ≡ (set_cookie raw, l')
      → (of : Session) × (o ≡ some of)
        × (grant_session tokens now of tokens.new_token l ≡ (set_cookie raw, l'))
  after_apex_lem raw none l l' e = absurd (ground arith)
  after_apex_lem raw (some of) l l' e = (of, refl, e)

  after_redeem_lem :
      (raw : String) (o : Option (ℕ × Logins)) (l l' : Logins)
      → after_redeem tokens now o l ≡ (set_cookie raw, l')
      → (id : ℕ) × (m : Logins) × (o ≡ some (id, m))
        × (after_apex tokens now (get_session_by_id now id m) m ≡ (set_cookie raw, l'))
  after_redeem_lem raw none l l' e = absurd (ground arith)
  after_redeem_lem raw (some (id, m)) l l' e = (id, m, refl, e)

  -- A preview session is issued only for a code of which the table has a grant that is not expired,
  -- and only when the session that this grant names by id is in the table and not expired. The grants
  -- that the code redeems are gone afterwards and the others stay; the session that is added is of
  -- the preview scope and copies the login and user id of the session that the grant names.
  pub redeem_grant-Issued :
      (raw code : String) (l l' : Logins)
      → redeem_grant tokens now code l ≡ (set_cookie raw, l')
      → Issued (tokens.hash_token code) l l'
  unfolding redeem_grant get_session_by_id
  redeem_grant-Issued raw code l l' e =
      let (id, m, r, a) = after_redeem_lem raw _ l l' e in
      let w = redeem_leaves now (tokens.hash_token code) id l m r in
      let (of, f, g) = after_apex_lem raw _ m l' a in
      let (made, s, h, p, q, u) = grant_session_lem raw of tokens.new_token m l' g in
      let lives =
        found-Lives now (λ s. s.id == id && is_live now s.expires_at) (λ s h. ground arith) of
          m.sessions f in
      let same = found-id now id of m.sessions f in
      (
        of,
        made,
        subst (λ (i : ℕ). Minted now (tokens.hash_token code) i l.grants) (sym same)
            (redeem-Minted now (tokens.hash_token code) id l m r),
        subst (λ (x : Logins). Lives now of x.sessions) w lives,
        h ∙ ap (λ (x : Logins). x.grants) w,
        s ∙ ap (λ (x : Logins). made ∷ x.sessions) w,
        p,
        q,
        u,
      )
