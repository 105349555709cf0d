-- ===== src/GoRandom/Seeded.antt =====
-- A generator from its constructor is a ring, so Int31n returns on it and on all that follow it.
use alternator_client_cpp.Base.{ℕ, suc, ◌≡◌, refl, List, [], ◌∷◌, arith, length, ap}
use alternator_client_cpp.GoRandom.{new_rng, fill, seed_rand}
use alternator_client_cpp.GoRandom.Cooked.{rng_cooked}
use alternator_client_cpp.GoRandom.Ring.{IsRing}

length-fill : (x : ℕ) (cooked : List ℕ) → length (fill x cooked) ≡ length cooked
unfolding fill
length-fill x [] = refl
length-fill x (c ∷ cs) = ap suc (length-fill (seed_rand (seed_rand (seed_rand x))) cs)

length-rng_cooked : length rng_cooked ≡ 607
unfolding rng_cooked
length-rng_cooked = refl

pub new_rng-IsRing : (seed : ℕ) → IsRing (new_rng seed)
unfolding new_rng
new_rng-IsRing seed = record {
  size = omega (arith, length-fill _ rng_cooked, length-rng_cooked);
  tap_in = omega arith;
  feed_in = omega arith;
}
