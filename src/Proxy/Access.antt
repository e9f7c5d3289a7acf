-- ===== src/Proxy/Access.antt =====
-- previewAuthorized and redeemPreviewGrant: who may reach a preview.
use local_preview.Base.{ℕ, ◌*◌, String, not, Option, none, some, if◌then◌else◌, str_eq}
use local_preview.Db.Sessions.{
  Logins, Session, preview, redeem_preview_grant, get_session_by_id, get_session_by_token_hash,
  create_session,
}

-- previewSessionTTL in seconds
abbrev pub preview_session_ttl : ℕ
preview_session_ttl = 7 * 24 * 60 * 60

-- What the handler does: the request goes on, or the response is a redirect to the dashboard's grant
-- page, an error page, or a redirect that sets the cookie to the raw token.
pub data Verdict : Type 0 where
  authorized redirect_to_grant error_page : Verdict
  set_cookie : String → Verdict

-- The parts of the request that decide: the preview_auth parameter and the preview cookie.
pub record Credentials : Type 0 where
  pub code : String
  pub cookie : Option String

-- hashToken, and newToken with `none` for its error
pub record Tokens : Type 0 where
  pub hash_token : String → String
  pub new_token : Option (String × String)

module _ (tokens : Tokens) (now : ℕ) where
  unfoldable pub preview_session : String → Session → Session
  preview_session hash of = record of { token_hash = hash; scope = preview }

  abbrev pub issue : String → Option (Session × Logins) → Logins → Verdict × Logins
  issue raw none l = (error_page, l)
  issue raw (some (made, l')) l = (set_cookie raw, l')

  abbrev pub grant_session : Session → Option (String × String) → Logins → Verdict × Logins
  grant_session of none l = (error_page, l)
  grant_session of (some (raw, hash)) l =
      issue raw (create_session now (preview_session hash of) preview_session_ttl l) l

  abbrev pub after_apex : Option Session → Logins → Verdict × Logins
  after_apex none l = (redirect_to_grant, l)
  after_apex (some of) l = grant_session of tokens.new_token l

  abbrev pub after_redeem : Option (ℕ × Logins) → Logins → Verdict × Logins
  after_redeem none l = (redirect_to_grant, l)
  after_redeem (some (apex_id, l')) l = after_apex (get_session_by_id now apex_id l') l'

  unfoldable pub redeem_grant : String → Logins → Verdict × Logins
  redeem_grant code l = after_redeem (redeem_preview_grant now (tokens.hash_token code) l) l

  abbrev pub by_session : Option Session → Verdict
  by_session none = redirect_to_grant
  by_session (some s) = authorized

  abbrev pub by_cookie : Option String → Logins → Verdict
  by_cookie none l = redirect_to_grant
  by_cookie (some value) l =
      by_session (get_session_by_token_hash now preview (tokens.hash_token value) l)

  unfoldable pub preview_authorized : Credentials → Logins → Verdict × Logins
  preview_authorized r l =
      if not (str_eq r.code "") then redeem_grant r.code l else (by_cookie r.cookie l, l)
