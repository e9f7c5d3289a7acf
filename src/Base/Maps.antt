-- ===== src/Base/Maps.antt =====
-- Go maps as association lists, over any key with an equality test. A lookup reads the first
-- entry of its key, `put` overwrites in place, and `delete` drops every entry of its key.
use Prim.Native.Nat.{ℕ}
use Prim.Native.String.{String}
use mathlib.Core.Path.{◌≡◌, refl}
use mathlib.Core.Logic.{◌↔◌}
use mathlib.Core.Bool.{Bool, true}
use mathlib.Core.Option.{Option, none, some}
use mathlib.Core.List.{List, [], ◌∷◌}
use native.Mathlib.Omega.{arith}
use text.Mathlib.Text.{◌==◌ as str_eq}
use text.Mathlib.TextEquality.{eq_iff}
use local_preview.Base.Tests.{if◌then◌else◌, ◌==◌ as nat_eq, ==_iff}

-- A type whose values the code compares with `==`.
pub record Comparable {ℓ} (K : Type ℓ) : Type ℓ where
  pub same : K → K → Bool
  pub same_iff : (a b : K) → (same a b ≡ true) ↔ (a ≡ b)

instance abbrev pub ℕ_comparable : Comparable ℕ
ℕ_comparable = record { same = nat_eq; same_iff = ==_iff }

instance abbrev pub String_comparable : Comparable String
String_comparable = record { same = str_eq; same_iff = eq_iff }

abbrev pub Table {ℓ κ} : Type ℓ → Type κ → Type (ℓ ⊔ κ)
Table K V = List (K × V)

module _ {ℓ κ} {K : Type ℓ} {V : Type κ} ⦃c : Comparable K⦄ where
  -- v, ok := m[k]
  unfoldable pub find : K → Table K V → Option V
  find k [] = none
  find k ((j, v) ∷ m) = if c.same j k then some v else find k m

  -- m[k] = v
  unfoldable pub put : K → V → Table K V → Table K V
  put k v [] = (k, v) ∷ []
  put k v ((j, w) ∷ m) = if c.same j k then (k, v) ∷ m else (j, w) ∷ put k v m

  -- delete(m, k)
  unfoldable pub delete : K → Table K V → Table K V
  delete k [] = []
  delete k ((j, v) ∷ m) = if c.same j k then delete k m else (j, v) ∷ delete k m

  pub find-put :
      (k j : K) (v : V) (m : Table K V)
      → find j (put k v m) ≡ (if c.same k j then some v else find j m)
  unfolding find put
  find-put k j v [] = refl
  find-put k j v ((i, w) ∷ m) =
      ground (arith, c.same_iff k j, c.same_iff i k, c.same_iff i j, find-put k j v m)

  pub find-delete :
      (k j : K) (m : Table K V) → find j (delete k m) ≡ (if c.same k j then none else find j m)
  unfolding find delete
  find-delete k j [] = ground arith
  find-delete k j ((i, w) ∷ m) =
      ground (arith, c.same_iff k j, c.same_iff i k, c.same_iff i j, find-delete k j m)

pub same_refl {ℓ} : {K : Type ℓ} ⦃c : Comparable K⦄ (k : K) → c.same k k ≡ true
same_refl ⦃c⦄ k = (c.same_iff k k).1 refl
