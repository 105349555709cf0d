-- ===== src/AwsHelper/Pauses.antt =====
-- src/aws_dynamodb_helper.cpp: the pauses that UpdatePartitionKeyName makes between its attempts.
use mathlib.Core.List.{append-nil, append_assoc}
use native.Mathlib.Nat.{pow-suc}
use alternator_client_cpp.Base.{
  ℕ, zero, suc, ◌+◌, ◌*◌, ◌^◌, ◌≤◌, true, false, List, [], ◌∷◌, ◌++◌, if◌then◌else◌, ltb, length,
  length-append, Bool-cases, ◌≡◌, inl, inr, refl, sym, ◌∙◌, ap, arith,
}

-- So many pauses, the one numbered i (from 0) backoff * 2 ^ i long.
unfoldable pub pauses : ℕ → ℕ → List ℕ
pauses backoff zero = []
pauses backoff (suc n) = pauses backoff n ++ (backoff * 2 ^ n) ∷ []

-- A backoff of 0 makes no pause.
unfoldable pub pauses_of : ℕ → ℕ → List ℕ
unfolding pauses
pauses_of backoff n = if ltb 0 backoff then pauses backoff n else []

pub power : (b n : ℕ) → b * 2 ^ suc n ≡ b * 2 * 2 ^ n
power b n = ap (λ t. b * t) (pow-suc 2 n) ∙ omega arith

pauses_first : (b n : ℕ) → pauses b (suc n) ≡ b ∷ pauses (b * 2) n
unfolding pauses
pauses_first b zero = ap (λ x. x ∷ []) (omega arith)
pauses_first b (suc n) =
    ap (λ xs. xs ++ (b * 2 ^ suc n) ∷ []) (pauses_first b n)
    ∙ ap (λ x. b ∷ (pauses (b * 2) n ++ x ∷ [])) (power b n)

-- The pause after an attempt.
abbrev pub slept : ℕ → List ℕ
slept b = if ltb 0 b then b ∷ [] else []

pub pauses_of_first :
    (b n : ℕ) (sleeps : List ℕ)
    → (sleeps ++ slept b) ++ pauses_of (b * 2) n ≡ sleeps ++ pauses_of b (suc n)
unfolding pauses_of
pauses_of_first b n sleeps = elim (Bool-cases (ltb 0 b)) [
  | inl e ↦
      let doubled_too : ltb 0 (b * 2) ≡ true = ground arith in
      rw (e, doubled_too)
        (append_assoc sleeps (b ∷ []) (pauses (b * 2) n)
          ∙ ap (λ xs. sleeps ++ xs) (sym (pauses_first b n)))
  | inr e ↦
      let none : ltb 0 (b * 2) ≡ false = ground arith in rw (e, none) (append-nil (sleeps ++ []))
]

-- A bound on the last backoff is one on each.
pub backoff_le : (b n : ℕ) → b ≤ b * 2 ^ n
backoff_le b zero = omega arith
backoff_le b (suc n) = omega (arith, backoff_le (b * 2) n, power b n)

pub no_pauses : (b : ℕ) (sleeps : List ℕ) → sleeps ≡ sleeps ++ pauses_of b 0
unfolding pauses_of pauses
no_pauses b sleeps = elim (Bool-cases (ltb 0 b)) [
  | inl e ↦ rw e (sym (append-nil sleeps))
  | inr e ↦ rw e (sym (append-nil sleeps))
]

-- The sum of the pauses of a list.
unfoldable pub total : List ℕ → ℕ
total [] = 0
total (x ∷ xs) = x + total xs

total-append : (xs ys : List ℕ) → total (xs ++ ys) ≡ total xs + total ys
unfolding total
total-append [] ys = omega arith
total-append (x ∷ xs) ys = omega (arith, total-append xs ys)

total-pauses : (b n : ℕ) → total (pauses b n) + b ≡ b * 2 ^ n
unfolding total pauses
total-pauses b zero = omega arith
total-pauses b (suc n) =
    ap (λ t. t + b) (total-append (pauses b n) ((b * 2 ^ n) ∷ []))
    ∙ (omega (arith, total-pauses b n) ∙ sym (power b n))

pub total-pauses_of : (b n : ℕ) → total (pauses_of b n) + b ≡ b * 2 ^ n
unfolding pauses_of total
total-pauses_of b n = elim (Bool-cases (ltb 0 b)) [
  | inl e ↦ rw e (total-pauses b n)
  | inr e ↦ let zero_b : b ≡ 0 = ground arith in rw (e, zero_b) (omega arith)
]

length-pauses : (b n : ℕ) → length (pauses b n) ≡ n
unfolding pauses
length-pauses b zero = refl
length-pauses b (suc n) =
    omega (arith, length-append (pauses b n) ((b * 2 ^ n) ∷ []), length-pauses b n)

pub length-pauses_of : (b n : ℕ) → length (pauses_of b n) ≡ (if ltb 0 b then n else 0)
unfolding pauses_of
length-pauses_of b n = elim (Bool-cases (ltb 0 b)) [
  | inl e ↦ rw e (length-pauses b n)
  | inr e ↦ rw e refl
]
