-- ===== src/GoRandom.antt =====
-- include/scylladb/alternator/detail/go_random.h and src/go_random.cpp: Go's math/rand source.
-- A std::int64_t is its 64-bit pattern; sums wrap at 2 ^ 64, as the program's compilers do it.
pub mod Cooked
pub mod SeedRand
pub mod Ring
pub mod Termination
pub mod Seeded
pub mod Examples
use alternator_client_cpp.Base.{
  ℕ, zero, suc, ◌+◌, ◌-◌, ◌*◌, ◌/◌, ◌%◌, ◌^◌, bit_and, bit_xor, Bool, true, false, List, [], ◌∷◌,
  if◌then◌else◌, nat_eq, ltb, get_or, set, Result, ok, err, Error, invalid_argument, out_of_fuel,
}
use Cooked.{rng_cooked}

abbrev pub rng_len : ℕ
rng_len = 607

abbrev pub rng_tap : ℕ
rng_tap = 273

abbrev pub int32_max : ℕ
int32_max = 2147483647

pub record GoRandom : Type 0 where
  pub tap : ℕ
  pub feed : ℕ
  pub vec : List ℕ

-- Schrage's step. The difference may be negative; then int32_max is added.
unfoldable pub seed_rand : ℕ → ℕ
seed_rand x =
    let hi = x / 44488 in
    let lo = x % 44488 in
    if ltb (48271 * lo) (3399 * hi)
    then 48271 * lo + int32_max - 3399 * hi
    else 48271 * lo - 3399 * hi

-- seed %= int32_max, made positive, for the std::int64_t with this pattern.
unfoldable pub reduce_seed : ℕ → ℕ
reduce_seed seed =
    if ltb seed (2 ^ 63)
    then seed % int32_max
    else (if nat_eq ((2 ^ 64 - seed) % int32_max) 0
        then 0
        else int32_max - (2 ^ 64 - seed) % int32_max)

skip_rounds : ℕ → ℕ → ℕ
skip_rounds zero x = x
skip_rounds (suc n) x = skip_rounds n (seed_rand x)

-- (x1 << 40) ^ (x2 << 20) ^ x3 ^ cooked
mix : ℕ → ℕ → ℕ → ℕ → ℕ
mix x1 x2 x3 cooked =
    bit_xor (bit_xor (bit_xor (x1 * 2 ^ 40 % 2 ^ 64) (x2 * 2 ^ 20 % 2 ^ 64)) x3) cooked

-- The rounds i = 0 … 606 of the seeding loop.
fill : ℕ → List ℕ → List ℕ
fill x [] = []
fill x (cooked ∷ more) =
    let x1 = seed_rand x in
    let x2 = seed_rand x1 in let x3 = seed_rand x2 in mix x1 x2 x3 cooked ∷ fill x3 more

start_of : ℕ → ℕ
start_of seed = if nat_eq (reduce_seed seed) 0 then 89482311 else reduce_seed seed

-- GoRandom(seed)
unfoldable pub new_rng : ℕ → GoRandom
unfolding seed_rand reduce_seed skip_rounds mix fill start_of rng_cooked
new_rng seed = record {
  tap = 0;
  feed = rng_len - rng_tap;
  vec = fill (skip_rounds 20 (start_of seed)) rng_cooked;
}

-- --i; if (i < 0) i += rng_len;
unfoldable pub step_back : ℕ → ℕ
step_back i = if nat_eq i 0 then rng_len - 1 else i - 1

unfoldable pub uint64 : GoRandom → ℕ × GoRandom
unfolding step_back
uint64 g =
    let tap = step_back g.tap in
    let feed = step_back g.feed in
    let x = (get_or g.vec feed 0 + get_or g.vec tap 0) % 2 ^ 64 in
    (x, record { tap = tap; feed = feed; vec = set g.vec feed x })

-- Uint64() & rng_mask
unfoldable pub int63 : GoRandom → ℕ × GoRandom
unfolding uint64
int63 g = let (x, g') = uint64 g in (x % 2 ^ 63, g')

-- Int63() >> 32
unfoldable pub int31 : GoRandom → ℕ × GoRandom
unfolding int63
int31 g = let (x, g') = int63 g in (x / 2 ^ 32, g')

-- v = Int31(); while (v > max) v = Int31(); with a bound on the draws.
unfoldable pub draw_until : ℕ → ℕ → GoRandom → Result (ℕ × GoRandom)
draw_until zero max g = err out_of_fuel
draw_until (suc fuel) max g =
    let rest = draw_until fuel max (int31 g).1 in
    if ltb max (int31 g).0 then rest else ok ((int31 g).0, (int31 g).1)

-- 64 rounds of the whole table.
abbrev pub draw_fuel : ℕ
draw_fuel = 38848

take_mod : ℕ → Result (ℕ × GoRandom) → Result (ℕ × GoRandom)
take_mod n (ok (v, g)) = ok (v % n, g)
take_mod n (err e) = err e

unfoldable pub int31n : GoRandom → ℕ → Result (ℕ × GoRandom)
unfolding take_mod
int31n g n =
    let (v, g') = int31 g in
    let drawn = take_mod n (draw_until draw_fuel (2 ^ 31 - 1 - 2 ^ 31 % n) g) in
    if nat_eq n 0
    then err (invalid_argument "GoRandom::Int31n requires n > 0" [])
    else if nat_eq (bit_and n (n - 1)) 0
    then ok (bit_and v (n - 1), g')
    else drawn
