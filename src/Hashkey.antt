-- ===== src/Hashkey.antt =====
-- internal/hashkey/hashkey.go: which files of a commit count for which content hash. A path is the
-- list of its bytes. path.Match and path.Base of the standard library are arguments, and so is the
-- digest of a manifest section, the extra environment and the chosen entries (SHA-256 over JSON).
pub mod Partition
mod Examples
use local_preview.Base.{
  ℕ, String, Bool, true, false, ◌&&◌, ◌||◌, not, Option, none, some, List, [], ◌∷◌, ◌++◌, ◌==◌,
  if◌then◌else◌, keep, list_same, ℕ_comparable,
}

abbrev pub TreePath : Type 0
TreePath = List ℕ

-- '/' and "."
abbrev pub slash : ℕ
slash = 47

abbrev pub dot : TreePath
dot = 46 ∷ []

-- gitrepo.TreeEntry
pub record TreeEntry : Type 0 where
  pub mode : String
  pub kind : String
  pub oid : String
  pub path : TreePath

-- strings.HasPrefix
abbrev pub has_prefix : TreePath → TreePath → Bool
has_prefix s [] = true
has_prefix [] (c ∷ cs) = false
has_prefix (b ∷ bs) (c ∷ cs) = b == c && has_prefix bs cs

-- under
unfoldable pub under : TreePath → TreePath → Bool
under p root = list_same root dot || list_same p root || has_prefix p (root ++ slash ∷ [])

-- strings.CutSuffix(pat, "/")
abbrev pub cut_slash : TreePath → Option TreePath
cut_slash [] = none
cut_slash (c ∷ []) = if c == slash then some [] else none
cut_slash (c ∷ d ∷ ds) = elim (cut_slash (d ∷ ds)) [ none ↦ none | some dir ↦ some (c ∷ dir) ]

-- What excluded calls of the package path
pub record Globs : Type 0 where
  pub matches : TreePath → TreePath → Bool
  pub base : TreePath → TreePath

-- One pattern of excluded
abbrev pub excludes : Globs → TreePath → TreePath → Bool
excludes g p pat = elim (cut_slash pat) [
  | some dir ↦ under p dir
  | none ↦ g.matches pat p || g.matches pat (g.base p)
]

-- excluded
unfoldable pub excluded : Globs → TreePath → List TreePath → Bool
excluded g p [] = false
excluded g p (pat ∷ pats) = if excludes g p pat then true else excluded g p pats

abbrev pub in_frontend : TreePath → TreeEntry → Bool
in_frontend fe_path e = under e.path fe_path

abbrev pub in_backend : Globs → TreePath → TreePath → List TreePath → TreeEntry → Bool
in_backend g path fe_path exclude e =
    under e.path path && not (under e.path fe_path) && not (excluded g e.path exclude)

-- digest, unless no entry was selected
abbrev pub digest_of : (List TreeEntry → String) → List TreeEntry → Option String
digest_of digest [] = none
digest_of digest (e ∷ es) = some (digest (e ∷ es))

-- Frontend
unfoldable pub frontend : (List TreeEntry → String) → TreePath → List TreeEntry → Option String
unfolding under
frontend digest fe_path entries = digest_of digest (keep (in_frontend fe_path) entries)

-- Backend, and equally Artifact
unfoldable pub backend :
    Globs
    → (List TreeEntry → String)
    → TreePath
    → TreePath
    → List TreePath
    → List TreeEntry
    → Option String
unfolding under excluded
backend g digest path fe_path exclude entries =
    digest_of digest (keep (in_backend g path fe_path exclude) entries)
