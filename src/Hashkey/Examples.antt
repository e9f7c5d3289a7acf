-- ===== src/Hashkey/Examples.antt =====
-- Two commits of a tree with a frontend in "w" and a backend beside it.
use local_preview.Base.{◌≡◌, refl, String, true, false, [], ◌∷◌, List, keep}
use local_preview.Hashkey.{TreePath, TreeEntry, Globs, slash, dot, under, backend}
use local_preview.Hashkey.Partition.{outside, backend_stable}

abbrev file : TreePath → String → TreeEntry
file path oid = record { mode = "100644"; kind = "blob"; oid = oid; path = path }

-- "w", "w/a" and "b"
abbrev web : TreePath
web = 119 ∷ []

abbrev page : TreePath
page = 119 ∷ slash ∷ 97 ∷ []

abbrev server : TreePath
server = 98 ∷ []

abbrev before : List TreeEntry
before = file page "1" ∷ file server "2" ∷ []

abbrev after : List TreeEntry
after = file server "2" ∷ file page "3" ∷ []

abbrev globs : Globs
globs = record { matches = λ pat p. false; base = λ p. p }

same_outside : keep (outside web) before ≡ keep (outside web) after
unfolding under
same_outside = refl

page-under : under page web ≡ true
unfolding under
page-under = refl

web-under : under web dot ≡ true
unfolding under
web-under = refl

backend_stable_example :
    backend globs (λ es. "h") dot web [] before ≡ backend globs (λ es. "h") dot web [] after
backend_stable_example = backend_stable globs (λ es. "h") dot web [] before after same_outside
