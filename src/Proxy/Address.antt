-- ===== src/Proxy/Address.antt =====
-- The address that is printed for a deploy leads back to it.
use local_preview.Base.{
  ℕ, ◌≡◌, refl, sym, ap, ◌∙◌, subst, Bool, true, false, not, ◌&&◌, ◌||◌, Option, none, some, List,
  [], ◌∷◌, ◌++◌, ◌==◌, leb, any, ℕ_comparable, rev, arith, ==_iff, All, All-append,
}
use mathlib.Core.List.{append_assoc, append-nil}
use local_preview.Build.{Repo}
use local_preview.Build.Queries.{is_hex_code}
use local_preview.Proxy.Hosts.{
  Text, dot, hyphen, lower_code, to_lower, trim_dot, cut_prefix, cut_suffix, single_label,
  parse_host, is_hex, find_repo, found, is_empty, split_from, split_sub, preview_host,
}

-- Sections on reversed texts
rev-append : (xs ys : Text) → rev (xs ++ ys) ≡ rev ys ++ rev xs
rev-append [] ys = sym (append-nil (rev ys))
rev-append (x ∷ xs) ys =
    ap (λ (z : Text). z ++ x ∷ []) (rev-append xs ys) ∙ append_assoc (rev ys) (rev xs) (x ∷ [])

rev-rev : (xs : Text) → rev (rev xs) ≡ xs
rev-rev [] = refl
rev-rev (x ∷ xs) = rev-append (rev xs) (x ∷ []) ∙ ap (λ (z : Text). x ∷ z) (rev-rev xs)

cut_prefix-append : (p s : Text) → cut_prefix p (p ++ s) ≡ some s
unfolding cut_prefix
cut_prefix-append [] s = refl
cut_prefix-append (c ∷ p) s = rw ((==_iff c c).1 refl) (cut_prefix-append p s)

cut_suffix-append : (s suffix : Text) → cut_suffix (s ++ suffix) suffix ≡ some s
unfolding cut_suffix
cut_suffix-append s suffix =
    rw (rev-append s suffix, cut_prefix-append (rev suffix) (rev s), rev-rev s) refl

-- A character of a label: a lower-case letter, a digit or a hyphen.
abbrev pub is_label_code : ℕ → Bool
is_label_code c = (leb 97 c && leb c 122) || ((leb 48 c && leb c 57) || c == hyphen)

abbrev pub AllLabel : Text → Type 0
AllLabel = All (λ c. is_label_code c ≡ true)

label-lower : (s : Text) → AllLabel s → to_lower s ≡ s
label-lower [] h = refl
label-lower (c ∷ s) h = ground (arith, h.0, label-lower s h.1)

label-no_dot : (s : Text) → AllLabel s → any (λ x. x == dot) s ≡ false
label-no_dot [] h = refl
label-no_dot (c ∷ s) h = ground (arith, h.0, label-no_dot s h.1)

hex-no_hyphen : (c : ℕ) → is_hex_code c ≡ true → (c == hyphen) ≡ false
hex-no_hyphen c h = ground arith

abbrev pub AllHex : Text → Type 0
AllHex = All (λ c. is_hex_code c ≡ true)

hex_any : (s : Text) → AllHex s → any (λ x. not (is_hex_code x)) s ≡ false
hex_any [] h = refl
hex_any (c ∷ s) h = ground (arith, h.0, hex_any s h.1)

-- A text that is not empty
abbrev pub NonEmpty : Text → Type 0
NonEmpty [] = ⊥
NonEmpty (c ∷ cs) = Unit

is_hex_lem : (s : Text) → NonEmpty s → AllHex s → is_hex s ≡ true
is_hex_lem [] n h = absurd n
is_hex_lem (c ∷ s) n h = rw (hex_any (c ∷ s) h) refl

snoc-NonEmpty : (s : Text) (c : ℕ) → NonEmpty (s ++ c ∷ [])
snoc-NonEmpty [] c = tt
snoc-NonEmpty (x ∷ s) c = tt

nonempty_lem : (s : Text) → NonEmpty s → is_empty s ≡ false
nonempty_lem [] n = absurd n
nonempty_lem (c ∷ s) n = refl

middle-hex : (left : Text) (c : ℕ) (cs : Text) → AllHex (left ++ c ∷ cs) → is_hex_code c ≡ true
middle-hex [] c cs h = h.0
middle-hex (x ∷ left) c cs h = middle-hex left c cs h.1

module _ (repos : List Repo) (name : Text) (r : Repo) (at_name : NonEmpty name)
    (known : find_repo name repos ≡ some r) where
  at_hyphen :
      (left guess : Text)
      → NonEmpty left
      → AllHex left
      → split_from repos left (hyphen ∷ name) guess ≡ found left r
  unfolding split_from
  at_hyphen left guess n h =
      rw (split_from, nonempty_lem left n, nonempty_lem name at_name, is_hex_lem left n h, known)
        refl

  skip_hex :
      (left : Text) (c : ℕ) (cs guess : Text)
      → is_hex_code c ≡ true
      → split_from repos left (c ∷ cs) guess ≡ split_from repos (left ++ c ∷ []) cs guess
  unfolding split_from
  skip_hex left c cs guess h = rw (split_from, hex-no_hyphen c h) refl

  split_from-found :
      (left short guess : Text)
      → NonEmpty (left ++ short)
      → AllHex (left ++ short)
      → split_from repos left (short ++ hyphen ∷ name) guess ≡ found (left ++ short) r
  split_from-found left [] guess n h =
      let e = append-nil left in
      at_hyphen left guess (subst NonEmpty e n) (subst AllHex e h)
      ∙ ap (λ (x : Text). found x r) (sym e)
  split_from-found left (c ∷ cs) guess n h =
      let e = append_assoc left (c ∷ []) cs in
      skip_hex left c (cs ++ hyphen ∷ name) guess (middle-hex left c cs h)
      ∙ split_from-found (left ++ c ∷ []) cs guess (subst NonEmpty (sym e) n)
          (subst AllHex (sym e) h)
      ∙ ap (λ (x : Text). found x r) e

to_lower-append : (xs ys : Text) → to_lower (xs ++ ys) ≡ to_lower xs ++ to_lower ys
to_lower-append [] ys = refl
to_lower-append (x ∷ xs) ys = ap (λ (z : Text). lower_code x ∷ z) (to_lower-append xs ys)

trim_dot-kept : (s : Text) (c : ℕ) → (c == dot) ≡ false → trim_dot (s ++ c ∷ []) ≡ s ++ c ∷ []
unfolding trim_dot
trim_dot-kept s c h = rw (rev-append s (c ∷ []), h, rev-rev s) refl

-- A preview domain as it is configured: lower case, and not ending in a dot.
pub record IsDomain (domain : Text) : Type 0 where
  pub lower : to_lower domain ≡ domain
  pub front : Text
  pub last : ℕ
  pub parts : domain ≡ front ++ last ∷ []
  pub no_dot : (last == dot) ≡ false

label_host :
    (sub domain : Text)
    → AllLabel sub
    → IsDomain domain
    → to_lower (trim_dot (sub ++ dot ∷ domain)) ≡ sub ++ dot ∷ domain
label_host sub domain h d =
    let whole : sub ++ dot ∷ domain ≡ (sub ++ dot ∷ d.front) ++ d.last ∷ [] =
      ap (λ (x : Text). sub ++ dot ∷ x) d.parts
      ∙ sym (append_assoc sub (dot ∷ d.front) (d.last ∷ [])) in
    ap to_lower
      (ap trim_dot whole ∙ trim_dot-kept (sub ++ dot ∷ d.front) d.last d.no_dot ∙ sym whole)
    ∙ to_lower-append sub (dot ∷ domain)
    ∙ ap (λ (x : Text). x ++ dot ∷ to_lower domain) (label-lower sub h)
    ∙ ap (λ (x : Text). sub ++ dot ∷ x) d.lower

single_label_lem : (sub : Text) → NonEmpty sub → AllLabel sub → single_label (some sub) ≡ some sub
single_label_lem [] n h = absurd n
single_label_lem (c ∷ sub) n h = rw (label-no_dot (c ∷ sub) h) refl

parse_host-label :
    (split_host_port : Text → Option Text) (sub domain : Text)
    → NonEmpty sub
    → AllLabel sub
    → IsDomain domain
    → split_host_port (sub ++ dot ∷ domain) ≡ none
    → parse_host split_host_port domain (sub ++ dot ∷ domain) ≡ some sub
unfolding parse_host
parse_host-label split_host_port sub domain n h d e =
    rw (e, label_host sub domain h d, cut_suffix-append sub (dot ∷ domain))
      (single_label_lem sub n h)

hex-label : (s : Text) → AllHex s → AllLabel s
hex-label [] h = tt
hex-label (c ∷ s) h = (one c h.0, hex-label s h.1)
  where
    one : (c : ℕ) → is_hex_code c ≡ true → is_label_code c ≡ true
    one c h = ground arith

-- The address of a deploy leads back to its repo and sha prefix: for a short sha of lower-case hex and a
-- registered repo whose name is a host label, parsing the host that PreviewBase.URL builds (no port) and
-- splitting it gives the same short sha and the same repo, even when the name has hyphens.
pub split_sub-preview_host :
    (split_host_port : Text → Option Text) (repos : List Repo) (r : Repo) (short name domain : Text)
    → NonEmpty short
    → AllHex short
    → NonEmpty name
    → AllLabel name
    → find_repo name repos ≡ some r
    → IsDomain domain
    → split_host_port (preview_host short name domain) ≡ none
    → (sub : Text) × (parse_host split_host_port domain (preview_host short name domain) ≡ some sub)
      × (split_sub repos sub ≡ found short r)
unfolding preview_host split_sub
split_sub-preview_host split_host_port repos r short name domain ns hs nn hn known d e = (
  short ++ hyphen ∷ name,
  parse_host-label split_host_port (short ++ hyphen ∷ name) domain (joined short)
      (All-append (λ c. is_label_code c ≡ true) short (hyphen ∷ name) (hex-label short hs)
        (refl, hn))
      d e,
  split_from-found repos name r nn known [] short [] ns hs,
)
  where
    joined : (s : Text) → NonEmpty (s ++ hyphen ∷ name)
    joined [] = tt
    joined (c ∷ s) = tt
