-- ===== src/Hashkey/Partition.antt =====
-- The partitions of a commit's files, and which changes leave a hash alone.
use local_preview.Base.{
  ◌≡◌, refl, ap, ◌∙◌, sym, String, Bool, true, false, not, List, [], ◌∷◌, ◌++◌, arith, ==_iff, keep,
  list_same, list_same_iff, ℕ_comparable,
}
use local_preview.Hashkey.{
  TreePath, TreeEntry, Globs, has_prefix, under, slash, dot, in_backend, digest_of, backend,
}

keep-narrow :
    (p q : TreeEntry → Bool)
    → ((e : TreeEntry) → q e ≡ true → p e ≡ true)
    → (es : List TreeEntry) → keep q es ≡ keep q (keep p es)
keep-narrow p q f [] = refl
keep-narrow p q f (e ∷ es) = ground (arith, f e, keep-narrow p q f es)

abbrev pub outside : TreePath → TreeEntry → Bool
outside fe_path e = not (under e.path fe_path)

backend_outside :
    (g : Globs) (path fe_path : TreePath) (exclude : List TreePath) (e : TreeEntry)
    → in_backend g path fe_path exclude e ≡ true
    → outside fe_path e ≡ true
backend_outside g path fe_path exclude e h = ground arith

-- Two commits whose files outside the frontend's directory are the same have the same backend hash,
-- or both none: a change of the frontend alone rebuilds no backend.
pub backend_stable :
    (g : Globs) (digest : List TreeEntry → String) (path fe_path : TreePath)
    (exclude : List TreePath) (before after : List TreeEntry)
    → keep (outside fe_path) before ≡ keep (outside fe_path) after
    → backend g digest path fe_path exclude before ≡ backend g digest path fe_path exclude after
unfolding backend
backend_stable g digest path fe_path exclude before after h = ap (digest_of digest) (
    keep-narrow (outside fe_path) (in_backend g path fe_path exclude)
      (backend_outside g path fe_path exclude) before
    ∙ ap (keep (in_backend g path fe_path exclude)) h
    ∙ sym (
        keep-narrow (outside fe_path) (in_backend g path fe_path exclude)
          (backend_outside g path fe_path exclude) after))

prefix_append : (p q r : TreePath) → has_prefix p (q ++ r) ≡ true → has_prefix p q ≡ true
prefix_append p [] r h = refl
prefix_append [] (c ∷ q) r h = h
prefix_append (b ∷ p) (c ∷ q) r h = ground (arith, prefix_append p q r)

prefix_trans :
    (p q r : TreePath) → has_prefix p q ≡ true → has_prefix q r ≡ true → has_prefix p r ≡ true
prefix_trans p q [] h k = refl
prefix_trans p [] (c ∷ r) h k = absurd (ground arith)
prefix_trans [] (b ∷ q) (c ∷ r) h k = absurd (ground arith)
prefix_trans (a ∷ p) (b ∷ q) (c ∷ r) h k =
    ground (arith, ==_iff a b, ==_iff b c, ==_iff a c, prefix_trans p q r)

-- A path inside a directory that lies inside another is inside that one too, when the middle one is
-- not the whole tree.
pub under_trans :
    (p q r : TreePath)
    → list_same q dot ≡ false
    → under p q ≡ true
    → under q r ≡ true
    → under p r ≡ true
unfolding under
under_trans p q r n h k = ground (
  arith,
  list_same_iff p q,
  list_same_iff q r,
  prefix_append p q (slash ∷ []),
  prefix_trans p q (r ++ slash ∷ []),
)
