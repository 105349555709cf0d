-- ===== src/GoRandom/Termination.antt =====
-- The rejection loop of Int31n ends for every state of the generator. A draw is only rejected if its
-- low 63 bits are at least 2 ^ 62; such values are 2 ^ 63 less a gap of at most 2 ^ 62, and the gaps
-- of two entries add up, so the least gap of the table doubles in each round of 607 rejected draws.
use native.Mathlib.Nat.{pow-suc, mod-lt, mod-eq-sub-mod, mod-eq_of_lt}
use alternator_client_cpp.Base.{
  ℕ, zero, suc, ◌+◌, ◌-◌, ◌*◌, ◌%◌, ◌^◌, ◌≤◌, ◌<◌, ◌≡◌, ap, ◌∙◌, subst, false, arith, nat_eq, ltb,
  get_or, bit_and, Bool-cases, inl, inr, ◌⊎◌, Result, ok, ltb→lt,
}
use alternator_client_cpp.Base.Bits.{bit_and-le}
use alternator_client_cpp.GoRandom.{
  GoRandom, uint64, int31, draw_until, int31n, draw_fuel, step_back,
}
use alternator_client_cpp.GoRandom.Ring.{
  IsRing, step_back_lt, drawn, after, after_add, drawn-IsRing, after-IsRing, sweep,
}

-- How far the low 63 bits are below 2 ^ 63.
abbrev gap : ℕ → ℕ
gap x = 2 ^ 63 - x % 2 ^ 63

abbrev IsNear : ℕ → ℕ → Type 0
IsNear m x = (m ≤ gap x) × (gap x ≤ 2 ^ 62)

gap_sum :
    (m a b : ℕ)
    → IsNear m a
    → IsNear m b
    → gap ((a + b) % 2 ^ 64) ≤ 2 ^ 62
    → IsNear (2 * m) ((a + b) % 2 ^ 64)
gap_sum m a b p q h = omega arith

-- The draw that is made from g is rejected.
abbrev Rejects : ℕ → GoRandom → Type 0
Rejects max g = max < (int31 g).0

gap_rejected :
    (max : ℕ) (g : GoRandom) → 2 ^ 30 ≤ max + 1 → Rejects max g → gap (uint64 g).0 ≤ 2 ^ 62
unfolding int31
gap_rejected max g h r = omega arith

module _ (max : ℕ) (large : 2 ^ 30 ≤ max + 1) where
  Spread : ℕ → GoRandom → Type 0
  Spread m g = (i : ℕ) → i < 607 → IsNear m (get_or g.vec i 0)

  RejectsFor : ℕ → GoRandom → Type 0
  RejectsFor n g = (t : ℕ) → t < n → Rejects max (after t g)

  doubled :
      (m : ℕ) (h : GoRandom)
      → IsRing h
      → ((i : ℕ) → i < 607 → IsNear m (get_or h.vec i 0))
      → Rejects max h
      → IsNear (2 * m) (uint64 h).0
  unfolding uint64
  doubled m h ring entries rejected =
      gap_sum m _ _ (entries (step_back h.feed) (step_back_lt h.feed ring.feed_in))
        (entries (step_back h.tap) (step_back_lt h.tap ring.tap_in))
        (gap_rejected max h large rejected)

  first_round : (g : GoRandom) → IsRing g → RejectsFor 607 g → Spread 1 (after 607 g)
  unfolding RejectsFor Spread
  first_round g ring r =
      sweep (λ x. Unit {0}) (IsNear 1) (λ x h. tt) g ring (λ i h. tt)
        λ n h _. (omega arith, gap_rejected max (after n g) large (r n h))

  round :
      (m : ℕ) (g : GoRandom)
      → IsRing g
      → Spread m g
      → RejectsFor 607 g
      → Spread (2 * m) (after 607 g)
  unfolding RejectsFor Spread
  round m g ring s r =
      sweep (IsNear m) (IsNear (2 * m)) (λ x h. (omega arith, h.1)) g ring s
        λ n h entries. doubled m (after n g) (after-IsRing n ring) entries (r n h)

  rounds :
      (j m : ℕ) (g : GoRandom) → IsRing g → Spread m g → RejectsFor (607 * j) g → m * 2 ^ j ≤ 2 ^ 62
  unfolding RejectsFor Spread
  rounds zero m g ring s r = omega (arith, s 0 (omega arith))
  rounds (suc j) m g ring s r = omega (
    arith,
    ap (λ t. m * t) (pow-suc 2 j),
    rounds j (2 * m) (after 607 g) (after-IsRing 607 ring)
        (round m g ring s (λ t h. r t (omega arith)))
        (λ t h. rw (after_add 607 t g) (r (607 + t) (omega arith))),
  )

  not_rejected : (g : GoRandom) → IsRing g → ¬ ((t : ℕ) → t < draw_fuel → Rejects max (after t g))
  unfolding RejectsFor
  not_rejected g ring r = absurd (
      omega (
        arith,
        rounds 63 1 (after 607 g) (after-IsRing 607 ring)
            (first_round g ring (λ t h. r t (omega arith)))
            (λ t h. rw (after_add 607 t g) (r (607 + t) (omega arith))),
      ))

-- What the rejection loop returns: a draw that is not above max.
abbrev pub DrawsUpTo : ℕ → Result (ℕ × GoRandom) → Type 0
DrawsUpTo max r = (v : ℕ) × (g : GoRandom) × (r ≡ ok (v, g)) × (v ≤ max) × IsRing g

int31-IsRing : {g : GoRandom} → IsRing g → IsRing (int31 g).1
unfolding int31
int31-IsRing ring = drawn-IsRing ring

all_rejected :
    (fuel max : ℕ) (g : GoRandom)
    → Rejects max g
    → ((t : ℕ) → t < fuel → Rejects max (after t (int31 g).1))
    → (t : ℕ) → t < suc fuel
    → Rejects max (after t g)
unfolding int31 after
all_rejected fuel max g first more zero h = first
all_rejected fuel max g first more (suc t) h =
    let one : 1 + t ≡ suc t = omega arith in
    let e : after t (drawn g) ≡ after (suc t) g = after_add 1 t g ∙ ap (λ k. after k g) one in
    subst (λ k. Rejects max k) e (more t (omega arith))

draw_until_cases :
    (fuel max : ℕ) (g : GoRandom)
    → IsRing g
    → DrawsUpTo max (draw_until fuel max g) ⊎ ((t : ℕ) → t < fuel → Rejects max (after t g))
unfolding draw_until after
draw_until_cases zero max g ring = inr (λ t h. absurd (omega arith))
draw_until_cases (suc fuel) max g ring = elim (Bool-cases (ltb max (int31 g).0)) [
  | inr taken ↦ inl ((int31 g).0, (int31 g).1, rw taken, ground arith, int31-IsRing ring)
  | inl rejected ↦ elim (draw_until_cases fuel max (int31 g).1 (int31-IsRing ring)) [
    | inl (v, g', e, le, ring') ↦ inl (v, g', rw rejected e, le, ring')
    | inr more ↦ inr (all_rejected fuel max g (ltb→lt _ _ rejected) more)
  ]
]

drawn_total :
    (max : ℕ) (g : GoRandom)
    → 2 ^ 30 ≤ max + 1
    → IsRing g
    → DrawsUpTo max (draw_until draw_fuel max g)
drawn_total max g large ring = elim (draw_until_cases draw_fuel max g ring) [
  | inl found ↦ found
  | inr never ↦ absurd (not_rejected max large g ring never)
]

large : (n : ℕ) → 0 < n → n < 2 ^ 31 → 2 ^ 30 ≤ 2 ^ 31 - 1 - 2 ^ 31 % n + 1
large n pos small = elim (Bool-cases (ltb n (2 ^ 30 + 1))) [
  | inl e ↦ omega (arith, ltb→lt n (2 ^ 30 + 1) e, mod-lt (2 ^ 31) pos)
  | inr e ↦
      let above : 2 ^ 30 < n = ground arith in
      let once : 2 ^ 31 % n ≡ (2 ^ 31 - n) % n = mod-eq-sub-mod (omega arith) in
      let twice : (2 ^ 31 - n) % n ≡ 2 ^ 31 - n = mod-eq_of_lt (omega arith) in omega arith
]

-- For every state of the generator and every n from 1 to 2 ^ 31 - 1, Int31n returns: the loop that
-- draws again ends within its bound, and the value is below n.
pub int31n_total :
    (g : GoRandom) (n : ℕ)
    → IsRing g
    → 0 < n
    → n < 2 ^ 31
    → (v : ℕ) × (g' : GoRandom) × (int31n g n ≡ ok (v, g')) × (v < n) × IsRing g'
unfolding int31n
int31n_total g n ring pos small = elim (Bool-cases (nat_eq (bit_and n (n - 1)) 0)) [
  | inl power ↦ (
    bit_and (int31 g).0 (n - 1),
    (int31 g).1,
    rw (positive, power),
    omega (arith, bit_and-le (int31 g).0 (n - 1)),
    int31-IsRing ring,
  )
  | inr other ↦
      let (v, g', e, le, ring') =
        drawn_total (2 ^ 31 - 1 - 2 ^ 31 % n) g (large n pos small) ring in
      (v % n, g', rw (positive, other, e), mod-lt v pos, ring')
]
  where
    positive : nat_eq n 0 ≡ false
    positive = ground arith
