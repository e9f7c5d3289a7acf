-- ===== src/Base/Keys.antt =====
-- Equality tests on pairs and on lists, from those of their parts.
use mathlib.Core.Path.{◌≡◌}
use mathlib.Core.Logic.{◌↔◌}
use mathlib.Core.Bool.{Bool, true, false, ◌&&◌}
use mathlib.Core.List.{List, [], ◌∷◌}
use native.Mathlib.Omega.{arith}
use local_preview.Base.Maps.{Comparable}

module _ {ℓ κ} {A : Type ℓ} {B : Type κ} ⦃a : Comparable A⦄ ⦃b : Comparable B⦄ where
  abbrev pub pair_same : A × B → A × B → Bool
  pair_same (x, y) (z, w) = a.same x z && b.same y w

  pub pair_same_iff : (p q : A × B) → (pair_same p q ≡ true) ↔ (p ≡ q)
  pair_same_iff (x, y) (z, w) = ground (arith, a.same_iff x z, b.same_iff y w)

  instance abbrev pub pair_comparable : Comparable (A × B)
  pair_comparable = record { same = pair_same; same_iff = pair_same_iff }

module _ {ℓ} {A : Type ℓ} ⦃a : Comparable A⦄ where
  abbrev pub list_same : List A → List A → Bool
  list_same [] [] = true
  list_same [] (y ∷ ys) = false
  list_same (x ∷ xs) [] = false
  list_same (x ∷ xs) (y ∷ ys) = a.same x y && list_same xs ys

  pub list_same_iff : (xs ys : List A) → (list_same xs ys ≡ true) ↔ (xs ≡ ys)
  list_same_iff [] [] = ground arith
  list_same_iff [] (y ∷ ys) = ground arith
  list_same_iff (x ∷ xs) [] = ground arith
  list_same_iff (x ∷ xs) (y ∷ ys) = ground (arith, a.same_iff x y, list_same_iff xs ys)

  instance abbrev pub list_comparable : Comparable (List A)
  list_comparable = record { same = list_same; same_iff = list_same_iff }
