-- ===== src/Proxy/Hosts.antt =====
-- parseHost, splitSub, lookup and servePreview: which deploy a host names, and what is served for it.
-- A text is the list of its character codes; hosts, shas and repo names are ASCII.
use local_preview.Base.{
  ℕ, ◌+◌, Bool, true, false, not, ◌&&◌, ◌||◌, Option, none, some, List, [], ◌∷◌, ◌++◌, ◌==◌, leb,
  if◌then◌else◌, any, keep, list_same, ℕ_comparable, rev, str_eq, map,
}
use local_preview.Db.Deploys.{DeployRow, queued, building, ready, failed, evicted, Sha}
use local_preview.Build.{Repo}
use local_preview.Build.Queries.{codes, is_hex_code}

abbrev pub Text : Type 0
Text = List ℕ

abbrev pub dot : ℕ
dot = 46

abbrev pub hyphen : ℕ
hyphen = 45

-- strings.ToLower on ASCII
abbrev pub lower_code : ℕ → ℕ
lower_code c = if leb 65 c && leb c 90 then c + 32 else c

abbrev pub to_lower : Text → Text
to_lower = map lower_code

abbrev pub drop_dot : Text → Text
drop_dot [] = []
drop_dot (c ∷ cs) = if c == dot then cs else c ∷ cs

-- strings.TrimSuffix(host, ".")
unfoldable pub trim_dot : Text → Text
trim_dot s = rev (drop_dot (rev s))

unfoldable pub cut_prefix : Text → Text → Option Text
cut_prefix [] s = some s
cut_prefix (p ∷ ps) [] = none
cut_prefix (p ∷ ps) (c ∷ cs) = let rest = cut_prefix ps cs in if p == c then rest else none

abbrev pub reversed : Option Text → Option Text
reversed none = none
reversed (some s) = some (rev s)

-- strings.CutSuffix
unfoldable pub cut_suffix : Text → Text → Option Text
cut_suffix s suffix = reversed (cut_prefix (rev suffix) (rev s))

abbrev pub single_label : Option Text → Option Text
single_label none = none
single_label (some []) = none
single_label (some (c ∷ cs)) = if any (λ x. x == dot) (c ∷ cs) then none else some (c ∷ cs)

abbrev pub or_whole : Text → Option Text → Text
or_whole s none = s
or_whole s (some h) = h

-- parseHost; the first argument is net.SplitHostPort, with `none` for its error.
unfoldable pub parse_host : (Text → Option Text) → Text → Text → Option Text
parse_host split_host_port domain hostport =
    let host = or_whole hostport (split_host_port hostport) in
    single_label (cut_suffix (to_lower (trim_dot host)) (dot ∷ domain))

-- isHex; also the shape that DeploysBySHAPrefix asks for
abbrev pub is_hex : Text → Bool
is_hex [] = false
is_hex (c ∷ cs) = not (any (λ x. not (is_hex_code x)) (c ∷ cs))

unfoldable pub find_repo : Text → List Repo → Option Repo
find_repo name [] = none
find_repo name (r ∷ rs) = if list_same (codes r.name) name then some r else find_repo name rs

-- What splitSub returns: the label and the repo, or the guess that words the error.
pub data Split : Type 0 where
  found : Text → Repo → Split
  missing : Text → Split

abbrev pub first_guess : Text → Text → Text
first_guess [] right = right
first_guess (c ∷ cs) right = c ∷ cs

abbrev pub is_empty : Text → Bool
is_empty [] = true
is_empty (c ∷ cs) = false

abbrev pub found_or : Text → Option Repo → Split → Split
found_or left none next = next
found_or left (some r) next = found left r

-- The loop over the hyphens, with what stands to the left and the guess so far.
unfoldable pub split_from : List Repo → Text → Text → Text → Split
split_from repos left [] guess = missing guess
split_from repos left (c ∷ cs) guess =
    let on = split_from repos (left ++ c ∷ []) cs guess in
    let next = split_from repos (left ++ c ∷ []) cs (first_guess guess cs) in
    if not (c == hyphen) || (is_empty left || is_empty cs || not (is_hex left))
    then on
    else found_or left (find_repo cs repos) next

unfoldable pub split_sub : List Repo → Text → Split
split_sub repos sub = split_from repos [] sub []

-- DeploysBySHAPrefix
abbrev pub starts_with : Text → Sha → Bool
starts_with prefix sha = elim (cut_prefix prefix sha) [ none ↦ false | some rest ↦ true ]

unfoldable pub deploys_by_sha_prefix : ℕ → Text → List DeployRow → List DeployRow
deploys_by_sha_prefix repo_id prefix = keep (λ d. d.repo_id == repo_id && starts_with prefix d.sha)

-- What lookup caches of an address, without the routing shape of a ready deploy.
pub data Entry : Type 0 where
  not_an_address : Entry
  no_repo : Text → Entry
  no_deploy : Repo → Text → Entry
  ambiguous : Repo → Text → List Sha → Entry
  serves : Repo → DeployRow → Entry

abbrev pub entry_of : Repo → Text → List DeployRow → Entry
entry_of repo label [] = no_deploy repo label
entry_of repo label (d ∷ []) = serves repo d
entry_of repo label (d ∷ e ∷ ds) = ambiguous repo label (map (λ r. r.short_sha) (d ∷ e ∷ ds))

abbrev pub entry_at : List DeployRow → Split → Entry
entry_at rows (missing []) = not_an_address
entry_at rows (missing (c ∷ cs)) = no_repo (c ∷ cs)
entry_at rows (found label repo) = entry_of repo label (deploys_by_sha_prefix repo.id label rows)

unfoldable pub lookup : List Repo → List DeployRow → Text → Entry
lookup repos rows sub = entry_at rows (split_sub repos sub)

-- The kinds of response of servePreview
pub data Response : Type 0 where
  interim_page build_failed cleaned_up downloads_only to_backend to_frontend static_files : Response

abbrev pub serve_ready : Bool → Bool → DeployRow → Response
serve_ready is_api fe_process d =
    if str_eq d.fe_hash "" && str_eq d.be_hash ""
    then downloads_only
    else if is_api
    then to_backend
    else if fe_process
    then to_frontend
    else static_files

-- servePreview; the arguments say that the path is the backend's, and that the frontend is a process.
unfoldable pub serve_preview : Bool → Bool → DeployRow → Response
serve_preview is_api fe_process d = elim d.status [
  | queued ↦ interim_page
  | building ↦ interim_page
  | failed ↦ build_failed
  | evicted ↦ cleaned_up
  | ready ↦ serve_ready is_api fe_process d
]

-- PreviewBase.URL of internal/config/config.go, the host part without a port
unfoldable pub preview_host : Text → Text → Text → Text
preview_host short_sha repo_name domain = (short_sha ++ hyphen ∷ repo_name) ++ dot ∷ domain
