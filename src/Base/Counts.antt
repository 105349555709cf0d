-- ===== src/Base/Counts.antt =====
-- Searching a list by the program's own equality, and lists with the same items, as often.
use alternator_client_cpp.Base.Tests.{if◌then◌else◌, Eq, ◌==◌, eq_iff}
use Prim.Native.Nat.{ℕ, suc, ◌+◌, ◌≤◌, ◌<◌}
use mathlib.Core.Path.{◌≡◌, refl}
use mathlib.Core.Logic.{◌↔◌}
use mathlib.Core.Bool.{Bool, true, false, ◌||◌}
use mathlib.Core.List.{List, [], ◌∷◌, ◌++◌}
use native.Mathlib.Omega.{arith}
use alternator_client_cpp.Base.Lists.{length}

module _ {ℓ} {A : Type ℓ} ⦃e : Eq A⦄ where
  -- std::find(first, last, a) != last
  unfoldable pub contains : A → List A → Bool
  contains a [] = false
  contains a (x ∷ xs) = (x == a) || contains a xs

  unfoldable pub count : A → List A → ℕ
  count a [] = 0
  count a (x ∷ xs) = (if x == a then 1 else 0) + count a xs

  -- The list without the first item equal to `a`: std::find and erase.
  unfoldable pub erase : A → List A → List A
  erase a [] = []
  erase a (x ∷ xs) = let rest = erase a xs in if x == a then xs else x ∷ rest

  pub count-append : (a : A) (xs ys : List A) → count a (xs ++ ys) ≡ count a xs + count a ys
  unfolding count
  count-append a [] ys = omega arith
  count-append a (x ∷ xs) ys = omega (arith, count-append a xs ys)

  pub contains_iff : (a : A) (xs : List A) → (contains a xs ≡ true) ↔ (0 < count a xs)
  unfolding contains count
  contains_iff a [] = ground arith
  contains_iff a (x ∷ xs) = ground (arith, contains_iff a xs)

  pub contains-append :
      (a : A) (xs ys : List A) → contains a (xs ++ ys) ≡ (contains a xs || contains a ys)
  unfolding contains
  contains-append a [] ys = refl
  contains-append a (x ∷ xs) ys = ground (arith, contains-append a xs ys)

  pub count-erase :
      (a b : A) (xs : List A)
      → contains a xs ≡ true
      → count b xs ≡ (if a == b then 1 else 0) + count b (erase a xs)
  unfolding contains count erase
  count-erase a b [] h = ground arith
  count-erase a b (x ∷ xs) h =
      ground (arith, count-erase a b xs, eq_iff x a, eq_iff x b, eq_iff a b)

  pub length-erase :
      (a : A) (xs : List A) → contains a xs ≡ true → length xs ≡ suc (length (erase a xs))
  unfolding contains erase
  length-erase a [] h = ground arith
  length-erase a (x ∷ xs) h = ground (arith, length-erase a xs)

-- The same items, each as often.
abbrev pub SameItems {ℓ} : {A : Type ℓ} ⦃e : Eq A⦄ → List A → List A → Type ℓ
SameItems {A} xs ys = (a : A) → count a xs ≡ count a ys

-- No item twice.
abbrev pub Distinct {ℓ} : {A : Type ℓ} ⦃e : Eq A⦄ → List A → Type ℓ
Distinct {A} xs = (a : A) → count a xs ≤ 1
