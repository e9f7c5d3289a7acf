-- ===== src/Proxy/Examples.antt =====
-- Runs of the preview gate and of the routing, and the theorems at concrete requests.
use local_preview.Base.{
  ◌≡◌, refl, String, false, none, some, [], ◌∷◌, ◌⊎◌, arith, if◌then◌else◌, str_eq,
}
use local_preview.Db.Deploys.{DeployRow, ready}
use local_preview.Db.Sessions.{
  Logins, Session, Grant, apex, preview, redeem_preview_grant, first_grant, first_session,
  get_session_by_id, get_session_by_token_hash, create_session, delete_expired_sessions,
}
use local_preview.Db.Sessions.Once.{here, next, sweep, redeem_preview_grant_once}
use local_preview.Build.{Repo, repo_ready}
use local_preview.Build.Queries.{codes}
use local_preview.Proxy.Access.{
  Tokens, Credentials, authorized, redirect_to_grant, set_cookie, preview_authorized, redeem_grant,
  preview_session,
}
use local_preview.Db.Sessions.Found.{Opens}
use local_preview.Proxy.Gate.{Issued, preview_authorized_gate, redeem_grant-Issued}
use local_preview.Proxy.Hosts.{
  Text, parse_host, split_sub, split_from, found, find_repo, preview_host, lookup, ambiguous,
  serves, deploys_by_sha_prefix, cut_prefix,
}
use local_preview.Proxy.Address.{split_sub-preview_host}

abbrev user : Session
user = record {
  id = 1;
  token_hash = "h1";
  scope = apex;
  github_login = "ann";
  github_user_id = 7;
  email = "";
  avatar_url = "";
  created_at = 0;
  expires_at = 900;
}

abbrev grant : Grant
grant = record { code_hash = "#c"; apex_session_id = 1; expires_at = 60 }

abbrev tables : Logins
tables = record { sessions = user ∷ []; grants = grant ∷ []; next_id = 2 }

abbrev used : Logins
used = record tables { grants = [] }

abbrev tokens : Tokens
tokens = record {
  hash_token = λ raw. if str_eq raw "c" then "#c" else "#t";
  new_token = some ("t", "#t");
}

abbrev issued : Session
issued = record user {
  id = 2;
  token_hash = "#t";
  scope = preview;
  created_at = 10;
  expires_at = 604810;
}

abbrev signed_in : Logins
signed_in = record { sessions = issued ∷ user ∷ []; grants = []; next_id = 3 }

redeemed : redeem_preview_grant 10 "#c" tables ≡ some (1, used)
unfolding redeem_preview_grant first_grant
redeemed = refl

redeem_preview_grant_once_example :
    redeem_preview_grant 20 "#c" (delete_expired_sessions 15 used) ≡ none
redeem_preview_grant_once_example =
    redeem_preview_grant_once "#c" 10 20 1 tables used (delete_expired_sessions 15 used) redeemed
      (next here (sweep 15)) (omega arith)

handed_off : redeem_grant tokens 10 "c" tables ≡ (set_cookie "t", signed_in)
unfolding redeem_grant redeem_preview_grant first_grant get_session_by_id first_session
    create_session preview_session
handed_off = refl

redeem_grant-Issued_example : Issued tokens 10 "#c" tables signed_in
redeem_grant-Issued_example = redeem_grant-Issued tokens 10 "t" "c" tables signed_in handed_off

abbrev request : Credentials
request = record { code = ""; cookie = some "t" }

admitted : preview_authorized tokens 20 request signed_in ≡ (authorized, signed_in)
unfolding preview_authorized get_session_by_token_hash first_session
admitted = refl

preview_authorized_gate_example :
    (request.code ≡ "")
    × (signed_in ≡ signed_in)
    × (value : String) × (request.cookie ≡ some value)
    × (Opens 20 (tokens.hash_token value) issued ⊎ (Opens 20 (tokens.hash_token value) user ⊎ ⊥))
preview_authorized_gate_example =
    preview_authorized_gate tokens 20 request signed_in signed_in admitted

-- The dashboard's own cookie does not open a preview.
apex_refused :
    preview_authorized (record tokens { hash_token = λ raw. "h1" }) 20 request tables
    ≡ (redirect_to_grant, tables)
unfolding preview_authorized get_session_by_token_hash first_session
apex_refused = refl

abbrev app : Repo
app = record {
  id = 1;
  name = "my-app";
  project_dir = "";
  status = repo_ready;
  error = "";
  watch = false;
  watch_branches = "";
  watch_baselined = false;
}

abbrev domain : Text
domain = codes "preview.test"

known : find_repo (codes "my-app") (app ∷ []) ≡ some app
unfolding find_repo
known = refl

split_sub-preview_host_example :
    (sub : Text) × (parse_host
        (λ s. none)
        domain
        (preview_host (codes "abc1234") (codes "my-app") domain)
      ≡ some sub)
    × (split_sub (app ∷ []) sub ≡ found (codes "abc1234") app)
split_sub-preview_host_example =
    split_sub-preview_host (λ s. none) (app ∷ []) app (codes "abc1234") (codes "my-app") domain tt
      (refl, (refl, (refl, (refl, (refl, (refl, (refl, tt))))))) tt
      (refl, (refl, (refl, (refl, (refl, (refl, tt)))))) known
      (record {
        lower = refl;
        front = codes "preview.tes";
        last = 116;
        parts = refl;
        no_dot = refl;
      })
      refl

abbrev row : DeployRow
row = record {
  id = 1;
  repo_id = 1;
  repo_name = "my-app";
  sha = codes "abc1234000";
  short_sha = codes "abc1234";
  meta = record {
    ref = "main";
    branch = "main";
    author_name = "";
    author_email = "";
    created_by = "";
  };
  fe_hash = "f";
  be_hash = "b";
  project_dir = "";
  artifacts = [];
  status = ready;
  error = "";
  attempt_count = 0;
  created_at = "noon";
}

-- A later deploy whose sha has the same seven characters gets a longer short sha.
abbrev later : DeployRow
later = record row { id = 2; sha = codes "abc1234fff"; short_sha = codes "abc1234f" }

alone : lookup (app ∷ []) (row ∷ []) (codes "abc1234-my-app") ≡ serves app row
unfolding lookup split_sub split_from find_repo deploys_by_sha_prefix cut_prefix
alone = refl

-- Its creation makes the address of the first deploy ambiguous.
crowded :
    lookup (app ∷ []) (later ∷ row ∷ []) (codes "abc1234-my-app")
    ≡ ambiguous app (codes "abc1234") (codes "abc1234f" ∷ codes "abc1234" ∷ [])
unfolding lookup split_sub split_from find_repo deploys_by_sha_prefix cut_prefix
crowded = refl
