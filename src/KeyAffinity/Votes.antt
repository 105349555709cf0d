-- ===== src/KeyAffinity/Votes.antt =====
-- src/key_route_affinity.cpp: the map of votes of a batch, and its sort.
use alternator_client_cpp.Base.{
  ℕ, ◌+◌, ◌<◌, ◌≤◌, true, false, List, [], ◌∷◌, if◌then◌else◌, nat_eq, ltb, Bool-cases, holds_if,
  ◌≡◌, ◌⊎◌, inl, inr, refl, ap, arith,
}
use alternator_client_cpp.Base.Bytes.{
  bytes_eq, bytes_eq_iff, bytes_lt, bytes_lt_irrefl, bytes_lt_trans, bytes_lt_total,
}
use alternator_client_cpp.Url.{Url, url_lt, to_string}
use alternator_client_cpp.KeyAffinity.Plans.{vote, goes_before, insert_vote, sort_votes, names_of}

-- The number of entries with the key of an address, and the sum of their votes.
unfoldable pub entries : Url → List (Url × ℕ) → ℕ
entries x [] = 0
entries x ((v, n) ∷ vs) = (if bytes_eq (to_string v) (to_string x) then 1 else 0) + entries x vs

unfoldable pub tally : Url → List (Url × ℕ) → ℕ
tally x [] = 0
tally x ((v, n) ∷ vs) = (if bytes_eq (to_string v) (to_string x) then n else 0) + tally x vs

unfoldable pub Positive : List (Url × ℕ) → Type 0
Positive [] = Unit {0}
Positive ((v, n) ∷ vs) = (0 < n) × Positive vs

-- Each entry has more votes than the next, or as many and a string that is not above the next one's.
unfoldable pub IsRanked : List (Url × ℕ) → Type 0
IsRanked [] = Unit {0}
IsRanked (x ∷ []) = Unit {0}
IsRanked ((u, n) ∷ (v, k) ∷ vs) =
    ((k < n) ⊎ ((k ≡ n) × (bytes_lt (to_string v) (to_string u) ≡ false))) × IsRanked ((v, k) ∷ vs)

unfoldable pub firsts : List (Url × ℕ) → List Url
firsts [] = []
firsts ((v, n) ∷ vs) = v ∷ firsts vs

-- Every key is above the one of the address.
Above : Url → List (Url × ℕ) → Type 0
Above u [] = Unit {0}
Above u ((v, n) ∷ vs) = (url_lt u v ≡ true) × Above u vs

unfoldable pub Ascending : List (Url × ℕ) → Type 0
unfolding Above
Ascending [] = Unit {0}
Ascending ((v, n) ∷ vs) = Above v vs × Ascending vs

Above-trans : (u v : Url) (vs : List (Url × ℕ)) → url_lt u v ≡ true → Above v vs → Above u vs
unfolding Above url_lt
Above-trans u v [] h a = tt
Above-trans u v ((w, n) ∷ vs) h a =
    (bytes_lt_trans (to_string u) (to_string v) (to_string w) h a.0, Above-trans u v vs h a.1)

vote-Above :
    (u v : Url) (vs : List (Url × ℕ)) → url_lt u v ≡ true → Above u vs → Above u (vote v vs)
unfolding Above vote
vote-Above u v [] h a = (h, tt)
vote-Above u v ((w, n) ∷ vs) h a =
    holds_if (Above u) (url_lt w v) (a.0, vote-Above u v vs h a.1)
      (holds_if (Above u) (url_lt v w) (h, a) (a.0, a.1))

pub vote-Ascending : (u : Url) (vs : List (Url × ℕ)) → Ascending vs → Ascending (vote u vs)
unfolding Ascending Above vote
vote-Ascending u [] h = (tt, tt)
vote-Ascending u ((v, n) ∷ vs) h = elim (Bool-cases (url_lt v u)) [
  | inl e ↦ rw e (vote-Above v u vs e h.0, vote-Ascending u vs h.1)
  | inr e ↦ elim (Bool-cases (url_lt u v)) [
    | inl f ↦ rw (e, f) ((f, Above-trans u v vs f h.0), h)
    | inr f ↦ rw (e, f) h
  ]
]

entries-Above :
    (u x : Url) (vs : List (Url × ℕ)) → to_string u ≡ to_string x → Above u vs → entries x vs ≡ 0
unfolding entries Above url_lt
entries-Above u x [] e a = refl
entries-Above u x ((v, n) ∷ vs) e a = ground (
  arith,
  entries-Above u x vs e a.1,
  a.0,
  e,
  bytes_lt_irrefl (to_string x),
  bytes_eq_iff (to_string v) (to_string x),
)

pub entries-Ascending : (x : Url) (vs : List (Url × ℕ)) → Ascending vs → entries x vs ≤ 1
unfolding entries Ascending
entries-Ascending x [] h = omega arith
entries-Ascending x ((v, n) ∷ vs) h = elim (Bool-cases (bytes_eq (to_string v) (to_string x))) [
  | inl e ↦
      let same = (bytes_eq_iff (to_string v) (to_string x)).0 e in
      rw e (omega (arith, entries-Above v x vs same h.0))
  | inr e ↦ rw e (omega (arith, entries-Ascending x vs h.1))
]

pub tally-vote :
    (x u : Url) (vs : List (Url × ℕ))
    → tally x (vote u vs) ≡ (if bytes_eq (to_string u) (to_string x) then 1 else 0) + tally x vs
unfolding tally vote url_lt
tally-vote x u [] = refl
tally-vote x u ((v, n) ∷ vs) =
    ground (arith, tally-vote x u vs, bytes_lt_total (to_string u) (to_string v))

pub vote-Positive : (u : Url) (vs : List (Url × ℕ)) → Positive vs → Positive (vote u vs)
unfolding Positive vote
vote-Positive u [] h = (omega arith, tt)
vote-Positive u ((v, n) ∷ vs) h =
    holds_if Positive (url_lt v u) (h.0, vote-Positive u vs h.1)
      (holds_if Positive (url_lt u v) (omega arith, h) (omega arith, h.1))

-- The sort moves entries only.
tally-insert_vote :
    (x : Url) (v : Url × ℕ) (vs : List (Url × ℕ))
    → (tally x (insert_vote v vs) ≡ tally x (v ∷ vs))
      × (entries x (insert_vote v vs) ≡ entries x (v ∷ vs))
unfolding tally entries insert_vote
tally-insert_vote x (v, n) [] = (refl, refl)
tally-insert_vote x (v, n) ((w, k) ∷ vs) =
    let rest = tally-insert_vote x (v, n) vs in (ground (arith, rest.0), ground (arith, rest.1))

pub tally-sort_votes :
    (x : Url) (vs : List (Url × ℕ))
    → (tally x (sort_votes vs) ≡ tally x vs) × (entries x (sort_votes vs) ≡ entries x vs)
unfolding tally entries sort_votes
tally-sort_votes x [] = (refl, refl)
tally-sort_votes x ((v, n) ∷ vs) =
    let rest = tally-sort_votes x vs in
    let put = tally-insert_vote x (v, n) (sort_votes vs) in
    (omega (arith, put.0, rest.0), omega (arith, put.1, rest.1))

insert_vote-Positive :
    (v : Url × ℕ) (vs : List (Url × ℕ)) → 0 < v.1 → Positive vs → Positive (insert_vote v vs)
unfolding Positive insert_vote
insert_vote-Positive (v, n) [] p h = (p, tt)
insert_vote-Positive (v, n) ((w, k) ∷ vs) p h =
    holds_if Positive (goes_before (w, k) (v, n)) (h.0, insert_vote-Positive (v, n) vs p h.1) (p, h)

pub sort_votes-Positive : (vs : List (Url × ℕ)) → Positive vs → Positive (sort_votes vs)
unfolding Positive sort_votes
sort_votes-Positive [] h = tt
sort_votes-Positive ((v, n) ∷ vs) h =
    insert_vote-Positive (v, n) (sort_votes vs) h.0 (sort_votes-Positive vs h.1)

pub names_of-Positive : (vs : List (Url × ℕ)) → Positive vs → names_of vs ≡ firsts vs
unfolding Positive names_of firsts
names_of-Positive [] h = refl
names_of-Positive ((v, n) ∷ vs) h =
    let some : ltb 0 n ≡ true = ground (arith, h.0) in
    rw some (ap (λ us. v ∷ us) (names_of-Positive vs h.1))

abbrev Before : Url × ℕ → Url × ℕ → Type 0
Before (u, n) (v, k) = (k < n) ⊎ ((k ≡ n) × (bytes_lt (to_string v) (to_string u) ≡ false))

goes_before_lem : (u v : Url) (n k : ℕ) → goes_before (u, n) (v, k) ≡ true → Before (u, n) (v, k)
unfolding goes_before
goes_before_lem u v n k h = elim (Bool-cases (nat_eq n k)) [
  | inl e ↦ inr (
    ground (arith, e),
    ground (
      arith,
      e,
      h,
      bytes_lt_trans (to_string u) (to_string v) (to_string u),
      bytes_lt_irrefl (to_string u),
    ),
  )
  | inr e ↦ inl (ground (arith, e, h))
]

goes_behind_lem : (u v : Url) (n k : ℕ) → goes_before (u, n) (v, k) ≡ false → Before (v, k) (u, n)
unfolding goes_before
goes_behind_lem u v n k h = elim (Bool-cases (nat_eq n k)) [
  | inl e ↦ inr (ground (arith, e), ground (arith, e, h))
  | inr e ↦ inl (ground (arith, e, h))
]

-- The entry that stands in front of what the insertion goes into.
insert_vote-headed :
    (x v y : Url × ℕ) (vs : List (Url × ℕ))
    → Before x v
    → Before x y
    → IsRanked (insert_vote v (y ∷ vs))
    → IsRanked (x ∷ insert_vote v (y ∷ vs))
unfolding IsRanked insert_vote
insert_vote-headed (w, k) (v, n) (u, j) vs before_v before_u h =
    elim (Bool-cases (goes_before (u, j) (v, n))) [
      | inl e ↦
          let rest : IsRanked ((u, j) ∷ insert_vote (v, n) vs) = rw e at h in rw e (before_u, rest)
      | inr e ↦ let rest : IsRanked ((v, n) ∷ (u, j) ∷ vs) = rw e at h in rw e (before_v, rest)
    ]

insert_vote-IsRanked :
    (v : Url × ℕ) (vs : List (Url × ℕ)) → IsRanked vs → IsRanked (insert_vote v vs)
unfolding IsRanked insert_vote
insert_vote-IsRanked (v, n) [] h = tt
insert_vote-IsRanked (v, n) ((w, k) ∷ []) h = elim (Bool-cases (goes_before (w, k) (v, n))) [
  | inl e ↦ rw e (goes_before_lem w v k n e, tt)
  | inr e ↦ rw e (goes_behind_lem w v k n e, tt)
]
insert_vote-IsRanked (v, n) ((w, k) ∷ (u, j) ∷ vs) h =
    let rest = insert_vote-IsRanked (v, n) ((u, j) ∷ vs) h.1 in
    let in_front = λ (before_v : Before (w, k) (v, n)).
      insert_vote-headed (w, k) (v, n) (u, j) vs before_v h.0 rest in
    elim (Bool-cases (goes_before (w, k) (v, n))) [
      | inl e ↦ rw e (in_front (goes_before_lem w v k n e))
      | inr e ↦ rw e (goes_behind_lem w v k n e, h)
    ]

pub sort_votes-IsRanked : (vs : List (Url × ℕ)) → IsRanked (sort_votes vs)
unfolding IsRanked sort_votes
sort_votes-IsRanked [] = tt
sort_votes-IsRanked ((v, n) ∷ vs) =
    insert_vote-IsRanked (v, n) (sort_votes vs) (sort_votes-IsRanked vs)
