-- ===== src/Base/Tests.antt =====
-- Boolean tests on the native numbers, the conditional, and equality as an interface.
use Prim.Native.Nat.{ℕ, ◌<◌, compare, Ordering}
use mathlib.Core.Path.{◌≡◌, refl, subst}
use mathlib.Core.Logic.{◌↔◌, ◌⊎◌, inl, inr}
use mathlib.Core.Bool.{Bool, true, false}
use mathlib.Core.Option.{Option, none, some}
use native.Mathlib.Omega.{arith}

abbrev pub ltb : ℕ → ℕ → Bool
ltb a b = elim (compare a b) [ Ordering.lt ↦ true | _ ↦ false ]

abbrev pub leb : ℕ → ℕ → Bool
leb a b = elim (compare a b) [ Ordering.gt ↦ false | _ ↦ true ]

abbrev pub nat_eq : ℕ → ℕ → Bool
nat_eq a b = elim (compare a b) [ Ordering.eq ↦ true | _ ↦ false ]

infix 1 if◌then◌else◌
abbrev pub if◌then◌else◌ {ℓ} : {A : Type ℓ} → Bool → A → A → A
if true then x else y = x
if false then x else y = y

pub holds_if {ℓ κ} :
    {A : Type ℓ} (P : A → Type κ) (b : Bool) {x y : A} → P x → P y → P (if b then x else y)
holds_if P true p q = p
holds_if P false p q = q

pub ltb→lt : (a b : ℕ) → ltb a b ≡ true → a < b
ltb→lt a b h = ground arith

pub lt→ltb : (a b : ℕ) → a < b → ltb a b ≡ true
lt→ltb a b h = ground arith

pub nat_eq_iff : (a b : ℕ) → (nat_eq a b ≡ true) ↔ (a ≡ b)
nat_eq_iff a b = ground arith

pub Bool-cases : (b : Bool) → (b ≡ true) ⊎ (b ≡ false)
Bool-cases true = inl refl
Bool-cases false = inr refl

pub Option-cases {ℓ} : {A : Type ℓ} (o : Option A) → (o ≡ none) ⊎ ((a : A) × (o ≡ some a))
Option-cases none = inl refl
Option-cases (some a) = inr (a, refl)

-- A type whose operator== is true of equal values, and of these alone.
pub record Eq {ℓ} (Item : Type ℓ) : Type ℓ where
  pub alike : Item → Item → Bool
  pub sound : (x y : Item) → alike x y ≡ true → x ≡ y
  pub self : (x : Item) → alike x x ≡ true

module _ {ℓ} {Item : Type ℓ} ⦃e : Eq Item⦄ where
  infix 50 ◌==◌
  abbrev pub ◌==◌ : Item → Item → Bool
  x == y = e.alike x y

  pub eq_iff : (x y : Item) → ((x == y) ≡ true) ↔ (x ≡ y)
  eq_iff x y = (e.sound x y, λ p. subst (λ z. e.alike x z ≡ true) p (e.self x))

-- The instance of a test that is known to decide equality.
abbrev pub eq_of {ℓ} :
    {Item : Type ℓ} (test : Item → Item → Bool)
    → ((x y : Item) → (test x y ≡ true) ↔ (x ≡ y))
    → Eq Item
eq_of test iff = record { alike = test; sound = λ x y. (iff x y).0; self = λ x. (iff x x).1 refl }

instance abbrev pub nat_Eq : Eq ℕ
nat_Eq = eq_of nat_eq nat_eq_iff
