-- ===== src/Watch/Matching.antt =====
-- `matchSegments` decides what a pattern with `**` segments means.
use local_preview.Base.{
  ◌≡◌, refl, Bool, true, false, Option, List, [], ◌∷◌, any, list_same, ℕ_comparable, ◌↔◌, arith,
  Bool-cases, inl, inr,
}
use local_preview.Watch.Globs.{
  Text, double_star, suffixes, matches_one, match_first, match_segments,
}

module _ (path_match : Text → Text → Option Bool) where
  -- `**` stands for any number of segments, none included; every other segment for one that matches it.
  pub data Matches : List Text → List Text → Type 0 where
    done : Matches [] []
    nothing :
        {p : Text} {ps ns : List Text}
        → list_same p double_star ≡ true
        → Matches ps ns
        → Matches (p ∷ ps) ns
    more :
        {p : Text} {ps : List Text} {n : Text} {ns : List Text}
        → list_same p double_star ≡ true
        → Matches (p ∷ ps) ns
        → Matches (p ∷ ps) (n ∷ ns)
    one :
        {p : Text} {ps : List Text} {n : Text} {ns : List Text}
        → list_same p double_star ≡ false
        → matches_one path_match p n ≡ true
        → Matches ps ns
        → Matches (p ∷ ps) (n ∷ ns)

  any_suffix :
      (ps : List Text)
      → ((ns : List Text) → match_segments path_match ps ns ≡ true → Matches ps ns)
      → (p : Text) → list_same p double_star ≡ true
      → (ns : List Text) → any (match_segments path_match ps) (suffixes ns) ≡ true
      → Matches (p ∷ ps) ns
  any_suffix ps ih p s [] h = nothing s (ih [] (ground arith))
  any_suffix ps ih p s (n ∷ ns) h = elim (Bool-cases (match_segments path_match ps (n ∷ ns))) [
    | inl e ↦ nothing s (ih (n ∷ ns) e)
    | inr e ↦ more s (any_suffix ps ih p s ns (ground arith))
  ]

  single :
      (ps : List Text)
      → ((ns : List Text) → match_segments path_match ps ns ≡ true → Matches ps ns)
      → (p : Text) → list_same p double_star ≡ false
      → (ns : List Text) → match_first path_match p ns (match_segments path_match ps) ≡ true
      → Matches (p ∷ ps) ns
  single ps ih p s [] h = cc
  single ps ih p s (n ∷ ns) h = one s (ground arith) (ih ns (ground arith))

  match_segments-Matches :
      (ps ns : List Text) → match_segments path_match ps ns ≡ true → Matches ps ns
  unfolding match_segments
  match_segments-Matches [] [] h = done
  match_segments-Matches [] (n ∷ ns) h = cc
  match_segments-Matches (p ∷ ps) ns h = elim (Bool-cases (list_same p double_star)) [
    | inl s ↦ any_suffix ps (match_segments-Matches ps) p s ns (ground arith)
    | inr s ↦ single ps (match_segments-Matches ps) p s ns (ground arith)
  ]

  star_suffix :
      (p : Text) (ps ns : List Text)
      → list_same p double_star ≡ true
      → any (match_segments path_match ps) (suffixes ns) ≡ true
      → match_segments path_match (p ∷ ps) ns ≡ true
  unfolding match_segments
  star_suffix p ps ns s h = ground arith

  suffix_of :
      (p : Text) (ps ns : List Text)
      → list_same p double_star ≡ true
      → match_segments path_match (p ∷ ps) ns ≡ true
      → any (match_segments path_match ps) (suffixes ns) ≡ true
  unfolding match_segments
  suffix_of p ps ns s h = ground arith

  here : (q : List Text → Bool) (ns : List Text) → q ns ≡ true → any q (suffixes ns) ≡ true
  here q [] h = ground arith
  here q (n ∷ ns) h = ground arith

  later :
      (q : List Text → Bool) (n : Text) (ns : List Text)
      → any q (suffixes ns) ≡ true
      → any q (suffixes (n ∷ ns)) ≡ true
  later q n ns h = ground arith

  one_step :
      (p : Text) (ps : List Text) (n : Text) (ns : List Text)
      → list_same p double_star ≡ false
      → matches_one path_match p n ≡ true
      → match_segments path_match ps ns ≡ true
      → match_segments path_match (p ∷ ps) (n ∷ ns) ≡ true
  unfolding match_segments
  one_step p ps n ns s m h = ground arith

  Matches-match_segments :
      {ps ns : List Text} → Matches ps ns → match_segments path_match ps ns ≡ true
  Matches-match_segments done = unfold match_segments in refl
  Matches-match_segments (nothing {p} {ps} {ns} s m) =
      star_suffix p ps ns s (here (match_segments path_match ps) ns (Matches-match_segments m))
  Matches-match_segments (more {p} {ps} {n} {ns} s m) =
      star_suffix p ps (n ∷ ns) s
        (later (match_segments path_match ps) n ns (suffix_of p ps ns s (Matches-match_segments m)))
  Matches-match_segments (one {p} {ps} {n} {ns} s e m) =
      one_step p ps n ns s e (Matches-match_segments m)

  -- For every list of pattern segments and every list of branch segments, matchSegments says yes exactly
  -- when the pattern matches in the sense of `Matches`: a `**` segment stands for zero or more
  -- segments, and each other segment for one that path.Match accepts.
  pub match_segments_iff :
      (ps ns : List Text) → (match_segments path_match ps ns ≡ true) ↔ Matches ps ns
  match_segments_iff ps ns = (match_segments-Matches ps ns, Matches-match_segments)
