-- ===== src/Watch/Globs.antt =====
-- The branch patterns. A text is the list of its character codes.
use local_preview.Base.{
  ℕ, Bool, true, false, not, ◌&&◌, ◌||◌, Option, none, some, List, [], ◌∷◌, ◌++◌, ◌==◌,
  if◌then◌else◌, any, list_same, ℕ_comparable, rev, leb,
}

abbrev pub Text : Type 0
Text = List ℕ

-- strings.Split and strings.SplitSeq by one character: there is always a first part.
unfoldable pub split_from : ℕ → Text → Text → List Text
split_from sep part [] = part ∷ []
split_from sep part (c ∷ cs) =
    let next = split_from sep [] cs in
    let on = split_from sep (part ++ c ∷ []) cs in if c == sep then part ∷ next else on

unfoldable pub split : ℕ → Text → List Text
split sep s = split_from sep [] s

-- The ASCII white space that strings.TrimSpace drops
abbrev pub is_space : ℕ → Bool
is_space c = c == 32 || (leb 9 c && leb c 13)

unfoldable pub trim_left : Text → Text
trim_left [] = []
trim_left (c ∷ cs) = let rest = trim_left cs in if is_space c then rest else c ∷ cs

unfoldable pub trim_space : Text → Text
trim_space s = rev (trim_left (rev (trim_left s)))

abbrev pub keep_nonempty : Text → List Text → List Text
keep_nonempty [] out = out
keep_nonempty (c ∷ cs) out = (c ∷ cs) ∷ out

unfoldable pub trim_parts : List Text → List Text
trim_parts [] = []
trim_parts (p ∷ ps) = keep_nonempty (trim_space p) (trim_parts ps)

-- SplitPatterns; a comma is 44.
unfoldable pub split_patterns : Text → List Text
split_patterns s = trim_parts (split 44 s)

abbrev pub double_star : Text
double_star = 42 ∷ 42 ∷ []

-- strings.CutPrefix(p, "!")
unfoldable pub cut_bang : Text → Option Text
cut_bang [] = none
cut_bang (c ∷ cs) = if c == 33 then some cs else none

-- name[i:] for i from 0 to len(name)
abbrev pub suffixes : List Text → List (List Text)
suffixes [] = [] ∷ []
suffixes (n ∷ ns) = (n ∷ ns) ∷ suffixes ns

-- What path.Match says of a segment and a name, `none` for a malformed pattern.
module _ (path_match : Text → Text → Option Bool) where
  abbrev pub matches_one : Text → Text → Bool
  matches_one pattern name = elim (path_match pattern name) [ none ↦ false | some b ↦ b ]

  -- The segments after the first, on what is left of the name
  abbrev pub match_first : Text → List Text → (List Text → Bool) → Bool
  match_first p [] rest = false
  match_first p (n ∷ ns) rest = if not (matches_one p n) then false else rest ns

  unfoldable pub match_segments : List Text → List Text → Bool
  match_segments [] [] = true
  match_segments [] (n ∷ ns) = false
  match_segments (p ∷ ps) name =
      if list_same p double_star
      then any (match_segments ps) (suffixes name)
      else match_first p name (match_segments ps)

  -- matchGlob; a slash is 47.
  unfoldable pub match_glob : Text → Text → Bool
  match_glob pattern branch = match_segments (split 47 pattern) (split 47 branch)

  -- The loop of MatchBranch, from what it has seen
  unfoldable pub match_from : List Text → Text → Bool → Bool → Bool
  match_from [] branch has_include included = not has_include || included
  match_from (p ∷ ps) branch has_include included =
      let skip = match_from ps branch has_include included in
      let take = match_from ps branch true (match_glob p branch || included) in
      elim (cut_bang p) [ some glob ↦ if match_glob glob branch then false else skip | none ↦ take ]

  unfoldable pub match_branch : List Text → Text → Bool
  match_branch patterns branch = match_from patterns branch false false

  abbrev pub valid_segment : Text → Bool
  valid_segment seg =
      list_same seg double_star || elim (path_match seg (120 ∷ [])) [ none ↦ false | some b ↦ true ]

  abbrev pub every : (Text → Bool) → List Text → Bool
  every p [] = true
  every p (x ∷ xs) = p x && every p xs

  abbrev pub valid_glob : Text → Bool
  valid_glob [] = false
  valid_glob (c ∷ cs) = every valid_segment (split 47 (c ∷ cs))

  abbrev pub strip_bang : Text → Text
  strip_bang p = elim (cut_bang p) [ none ↦ p | some glob ↦ glob ]

  abbrev pub join_commas : List Text → Text
  join_commas [] = []
  join_commas (p ∷ []) = p
  join_commas (p ∷ q ∷ ps) = p ++ 44 ∷ join_commas (q ∷ ps)

  -- ValidatePatterns: `none` is the error.
  unfoldable pub validate_patterns : Text → Option Text
  validate_patterns s =
      if every (λ p. valid_glob (strip_bang p)) (split_patterns s)
      then some (join_commas (split_patterns s))
      else none
