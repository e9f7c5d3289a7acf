-- ===== src/Base/Count.antt =====
-- How many elements of a list pass a test: two lists with the same counts for every test hold the
-- same elements as often.
use Prim.Native.Nat.{ℕ, zero, suc, ◌+◌, min}
use mathlib.Core.Path.{◌≡◌, refl}
use mathlib.Core.Bool.{Bool, true}
use mathlib.Core.List.{List, [], ◌∷◌, ◌++◌}
use native.Mathlib.Omega.{arith}
use local_preview.Base.Tests.{if◌then◌else◌}
use local_preview.Base.Lists.{length, take, drop, rev, All, All-append}

module _ {ℓ} {A : Type ℓ} where
  abbrev pub count : (A → Bool) → List A → ℕ
  count p [] = 0
  count p (x ∷ xs) = if p x then suc (count p xs) else count p xs

  pub count-append : (p : A → Bool) (xs ys : List A) → count p (xs ++ ys) ≡ count p xs + count p ys
  count-append p [] ys = omega arith
  count-append p (x ∷ xs) ys = ground (arith, count-append p xs ys)

  pub count-rev : (p : A → Bool) (xs : List A) → count p (rev xs) ≡ count p xs
  count-rev p [] = refl
  count-rev p (x ∷ xs) = ground (arith, count-append p (rev xs) (x ∷ []), count-rev p xs)

  pub count-take-drop :
      (p : A → Bool) (n : ℕ) (xs : List A) → count p (take n xs) + count p (drop n xs) ≡ count p xs
  count-take-drop p zero xs = omega arith
  count-take-drop p (suc n) [] = omega arith
  count-take-drop p (suc n) (x ∷ xs) = ground (arith, count-take-drop p n xs)

  pub count-length : (xs : List A) → count (λ x. true) xs ≡ length xs
  count-length [] = refl
  count-length (x ∷ xs) = omega (arith, count-length xs)

  pub length-rev : (xs : List A) → length (rev xs) ≡ length xs
  length-rev [] = refl
  length-rev (x ∷ xs) = omega (
    arith,
    count-append (λ (a : A). true) (rev xs) (x ∷ []),
    length-rev xs,
    count-length (rev xs),
    count-length (rev xs ++ x ∷ []),
  )

  pub length-take : (n : ℕ) (xs : List A) → length (take n xs) ≡ min n (length xs)
  length-take zero xs = omega arith
  length-take (suc n) [] = omega arith
  length-take (suc n) (x ∷ xs) = omega (arith, length-take n xs)

  pub All-rev {κ} : (P : A → Type κ) (xs : List A) → All P xs → All P (rev xs)
  All-rev P [] h = tt
  All-rev P (x ∷ xs) h = All-append P (rev xs) (x ∷ []) (All-rev P xs h.1) (h.0, tt)
