-- ===== src/GoRandom/Ring.antt =====
-- The table of the generator as a ring: every 607 draws overwrite each entry once.
use alternator_client_cpp.Base.{
  ℕ, zero, suc, ◌+◌, ◌-◌, ◌%◌, ◌≤◌, ◌<◌, ◌≡◌, refl, ap, Bool, true, false, arith, if◌then◌else◌,
  nat_eq, ltb, length, get_or, length-set, get_or-set, Bool-cases, holds_if, inl, inr,
}
use alternator_client_cpp.GoRandom.{GoRandom, step_back, uint64}

pub record IsRing (g : GoRandom) : Type 0 where
  pub size : length g.vec ≡ 607
  pub tap_in : g.tap < 607
  pub feed_in : g.feed < 607

-- The generator after one draw, and after n.
abbrev pub drawn : GoRandom → GoRandom
drawn g = (uint64 g).1

unfoldable pub after : ℕ → GoRandom → GoRandom
after zero g = g
after (suc n) g = drawn (after n g)

pub after_add : (m n : ℕ) (g : GoRandom) → after n (after m g) ≡ after (m + n) g
unfolding after
after_add m zero g = ap (λ k. after k g) (omega arith)
after_add m (suc n) g = subst_after (ap drawn (after_add m n g))
  where
    subst_after : {h : GoRandom} → h ≡ drawn (after (m + n) g) → h ≡ after (m + suc n) g
    subst_after p = let e : m + suc n ≡ suc (m + n) = omega arith in rw (e, after) p

pub step_back_lt : (i : ℕ) → i < 607 → step_back i < 607
unfolding step_back
step_back_lt i h = ground arith

pub drawn-IsRing : {g : GoRandom} → IsRing g → IsRing (drawn g)
unfolding uint64
drawn-IsRing {g} r = record {
  size = omega (arith, r.size, length-set g.vec (step_back g.feed) _);
  tap_in = step_back_lt g.tap r.tap_in;
  feed_in = step_back_lt g.feed r.feed_in;
}

pub after-IsRing : (n : ℕ) {g : GoRandom} → IsRing g → IsRing (after n g)
unfolding after
after-IsRing zero r = r
after-IsRing (suc n) r = drawn-IsRing (after-IsRing n r)

-- Where the feed pointer stands after n draws of one round.
feed_after :
    (n : ℕ) {g : GoRandom} → IsRing g → n ≤ 607 → (after n g).feed ≡ (g.feed + 607 - n) % 607
unfolding after uint64 step_back
feed_after zero r h = omega (arith, r.feed_in)
feed_after (suc n) {g} r h =
    ground (arith, feed_after n r (omega arith), r.feed_in, (after-IsRing n r).feed_in)

-- A draw changes the entry under the new feed pointer only.
entry-drawn :
    {g : GoRandom}
    → IsRing g
    → (i : ℕ)
    → get_or (drawn g).vec i 0
      ≡ (if nat_eq (drawn g).feed i then (uint64 g).0 else get_or g.vec i 0)
unfolding uint64
entry-drawn {g} r i =
    get_or-set g.vec (step_back g.feed) i _ 0 (omega (arith, r.size, step_back_lt g.feed r.feed_in))

-- One round: if every entry has P, and each draw makes a value with Q of two with P, then after 607
-- draws every entry has Q.
module _ (P Q : ℕ → Type 0) (weaken : (x : ℕ) → Q x → P x) (g : GoRandom) (ring : IsRing g)
    (start : (i : ℕ) → i < 607 → P (get_or g.vec i 0))
    (turn : (n : ℕ)
      → n < 607
      → ((i : ℕ) → i < 607 → P (get_or (after n g).vec i 0))
      → Q (uint64 (after n g)).0) where
  all_P : (n : ℕ) → n ≤ 607 → (i : ℕ) → i < 607 → P (get_or (after n g).vec i 0)
  unfolding after
  all_P zero h i lt = start i lt
  all_P (suc n) h i lt = rw (entry-drawn (after-IsRing n ring) i) (
      holds_if P (nat_eq (drawn (after n g)).feed i)
        (weaken _ (turn n (omega arith) (all_P n (omega arith)))) (all_P n (omega arith) i lt))

  hit : (n k : ℕ) → k < n → n ≤ 607 → Q (get_or (after n g).vec ((g.feed + 607 - suc k) % 607) 0)
  unfolding after
  hit zero k h le = elim h [ ]
  hit (suc n) k h le = rw (entry-drawn (after-IsRing n ring) ((g.feed + 607 - suc k) % 607)) (
      pick (λ earlier. hit n k earlier (omega arith))
        (nat_eq (drawn (after n g)).feed ((g.feed + 607 - suc k) % 607)) refl)
    where
      pick :
          (k < n → Q (get_or (after n g).vec ((g.feed + 607 - suc k) % 607) 0))
          → (b : Bool) → nat_eq (drawn (after n g)).feed ((g.feed + 607 - suc k) % 607) ≡ b
          → Q (
              if b
              then (uint64 (after n g)).0
              else get_or (after n g).vec ((g.feed + 607 - suc k) % 607) 0)
      pick old true e = turn n (omega arith) (all_P n (omega arith))
      pick old false e = old (ground (arith, feed_after (suc n) ring le, ring.feed_in))

  pub sweep : (i : ℕ) → i < 607 → Q (get_or (after 607 g).vec i 0)
  sweep i lt = elim (Bool-cases (ltb i g.feed)) [
    | inl e ↦
        let at : (g.feed + 607 - suc (g.feed - 1 - i)) % 607 ≡ i = ground (arith, ring.feed_in) in
        rw at at (hit 607 (g.feed - 1 - i) (omega (arith, ring.feed_in)) (omega arith))
    | inr e ↦
        let at : (g.feed + 607 - suc (g.feed + 606 - i)) % 607 ≡ i = ground (arith, ring.feed_in) in
        rw at at (hit 607 (g.feed + 606 - i) (ground (arith, ring.feed_in)) (omega arith))
  ]
