-- ===== src/GoRandom/SeedRand.antt =====
-- src/go_random.cpp, SeedRand: Schrage's method computes 48271 x mod (2 ^ 31 - 1) within 31 bits.
use alternator_client_cpp.Base.{
  ℕ, ◌+◌, ◌-◌, ◌*◌, ◌/◌, ◌%◌, ◌^◌, ◌<◌, ◌≡◌, ltb, if◌then◌else◌, arith,
}
use alternator_client_cpp.GoRandom.{seed_rand, int32_max}

-- Both products of the step are below 2 ^ 31 for every std::int32_t x below int32_max.
products_fit :
    (x : ℕ) → x < int32_max → (48271 * (x % 44488) < 2 ^ 31) × (3399 * (x / 44488) < 2 ^ 31)
products_fit x h = (omega arith, omega arith)

seed_rand-lt : (x : ℕ) → x < int32_max → seed_rand x < int32_max
unfolding seed_rand
seed_rand-lt x h = ground arith

-- The remainder without a division that could overflow: a quotient k is left.
seed_rand_quotient : (x : ℕ) → x < int32_max → (k : ℕ) × (48271 * x ≡ seed_rand x + k * int32_max)
unfolding seed_rand
seed_rand_quotient x h = (
  (if ltb (48271 * (x % 44488)) (3399 * (x / 44488)) then x / 44488 - 1 else x / 44488),
  ground arith,
)

-- For each x from 1 to int32_max - 1 the step of SeedRand gives 48271 x mod int32_max, and neither
-- of its products exceeds a std::int32_t.
pub seed_rand_lehmer :
    (x : ℕ)
    → 0 < x
    → x < int32_max
    → (seed_rand x ≡ 48271 * x % int32_max)
      × (48271 * (x % 44488) < 2 ^ 31)
      × (3399 * (x / 44488) < 2 ^ 31)
seed_rand_lehmer x p h =
    let (k, e) = seed_rand_quotient x h in
    let bound = seed_rand-lt x h in let (fst, snd) = products_fit x h in (omega arith, fst, snd)
