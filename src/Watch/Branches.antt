-- ===== src/Watch/Branches.antt =====
-- MatchBranch in terms of the patterns as a set.
use local_preview.Base.{
  ◌≡◌, Bool, true, false, not, ◌&&◌, ◌||◌, Option, none, some, List, [], ◌∷◌, any, arith,
  Option-cases, inl, inr,
}
use local_preview.Watch.Globs.{Text, cut_bang, match_glob, match_from, match_branch}

module _ (path_match : Text → Text → Option Bool) (branch : Text) where
  abbrev excludes : Text → Bool
  excludes p = elim (cut_bang p) [ none ↦ false | some glob ↦ match_glob path_match glob branch ]

  abbrev is_include : Text → Bool
  is_include p = elim (cut_bang p) [ none ↦ true | some glob ↦ false ]

  abbrev includes : Text → Bool
  includes p = is_include p && match_glob path_match p branch

  -- A branch is built when no exclusion matches it and, if there is any inclusion, one matches it.
  abbrev pub is_built : List Text → Bool
  is_built patterns =
      not (any excludes patterns) && (not (any is_include patterns) || any includes patterns)

  match_from_lem :
      (ps : List Text) (h i : Bool)
      → match_from path_match ps branch h i
        ≡ (not (any excludes ps) && (not (h || any is_include ps) || (i || any includes ps)))
  unfolding match_from
  match_from_lem [] h i = ground arith
  match_from_lem (p ∷ ps) h i = elim (Option-cases (cut_bang p)) [
    | inl e ↦
        rw (e, match_from)
          (ground (arith, match_from_lem ps true (match_glob path_match p branch || i)))
    | inr (g, e) ↦ rw (e, match_from) (ground (arith, match_from_lem ps h i))
  ]

  -- MatchBranch does not depend on the order of the patterns: it accepts a branch exactly when no
  -- pattern after a bang matches it and, where there are patterns without a bang, one of them matches.
  pub match_branch_lem : (ps : List Text) → match_branch path_match ps branch ≡ is_built ps
  unfolding match_branch
  match_branch_lem ps = match_from_lem ps false false
