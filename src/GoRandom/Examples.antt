-- ===== src/GoRandom/Examples.antt =====
-- The generator on seeds whose draws Go's own implementation fixes.
use alternator_client_cpp.Base.{
  ℕ, ◌≡◌, refl, ◌-◌, ◌*◌, ◌/◌, ◌%◌, ◌^◌, ◌<◌, ok, Result, ◌>>=◌, arith,
}
use alternator_client_cpp.GoRandom.{
  GoRandom, new_rng, int31n, int31, draw_until, seed_rand, int32_max,
}
use alternator_client_cpp.GoRandom.Ring.{IsRing}
use alternator_client_cpp.GoRandom.Seeded.{new_rng-IsRing}
use alternator_client_cpp.GoRandom.Termination.{int31n_total}
use alternator_client_cpp.GoRandom.SeedRand.{seed_rand_lehmer}

first_of : ℕ → ℕ → Result ℕ
first_of seed n = int31n (new_rng seed) n >>= λ r. ok r.0

-- rand.New(rand.NewSource(42)).Int31n(10) is 5, and 1 for the seed -1.
first_draws : (first_of 42 10 ≡ ok 5) × (first_of (2 ^ 64 - 1) 10 ≡ ok 1)
unfolding first_of new_rng int31n int31 draw_until
first_draws = (refl, refl)

three_fits : 3 < 2 ^ 31
three_fits = omega arith

int31n_total_example :
    (v : ℕ) × (g' : GoRandom) × (int31n (new_rng 42) 3 ≡ ok (v, g')) × (v < 3) × IsRing g'
int31n_total_example = int31n_total (new_rng 42) 3 (new_rng-IsRing 42) (omega arith) three_fits

seed_rand_lehmer_example :
    (seed_rand 89482311 ≡ 48271 * 89482311 % int32_max)
    × (48271 * (89482311 % 44488) < 2 ^ 31)
    × (3399 * (89482311 / 44488) < 2 ^ 31)
seed_rand_lehmer_example = seed_rand_lehmer 89482311 (omega arith) (omega arith)
