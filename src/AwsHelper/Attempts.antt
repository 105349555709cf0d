-- ===== src/AwsHelper/Attempts.antt =====
-- src/aws_dynamodb_helper.cpp: what the attempts of UpdatePartitionKeyName come to.
use mathlib.Core.List.{append-nil}
use alternator_client_cpp.Base.{
  ℕ, zero, suc, ◌+◌, ◌*◌, ◌%◌, ◌^◌, ◌<◌, length, Bool, true, false, List, [], ◌∷◌, ◌++◌,
  if◌then◌else◌, ltb, is_empty, Bool-cases, Result, ok, ◌≡◌, ◌≢◌, inl, inr, refl, sym, ◌∙◌, ap,
  arith,
}
use alternator_client_cpp.Base.Bytes.{Bytes}
use alternator_client_cpp.Base.Durations.{is_positive, doubled}
use alternator_client_cpp.AwsHelper.Pauses.{
  power, pauses_of, slept, pauses_of_first, backoff_le, no_pauses, total, total-pauses_of,
  length-pauses_of,
}
use alternator_client_cpp.AwsHelper.Client.{DynamoDbHelper, set_key_name}
use alternator_client_cpp.AwsHelper.Discovery.{
  DescribeTable, discover_partition_key_name, after_attempt, is_zero, attempt_from,
  update_partition_key_name,
}

named_lem : (name : Bytes) → name ≢ [] → is_empty name ≡ false
named_lem [] h = absurd (h refl)
named_lem (c ∷ cs) h = refl

module _ (describe_table : DescribeTable) (table_name : Bytes) where
  -- What the attempt numbered n (from 0) finds, and the state before it.
  unfoldable pub state_before : ℕ → DynamoDbHelper → DynamoDbHelper
  state_before zero s = s
  state_before (suc n) s =
      state_before n (discover_partition_key_name describe_table table_name s).1

  unfoldable pub found_by : ℕ → DynamoDbHelper → Result Bytes
  unfolding state_before
  found_by n s = (discover_partition_key_name describe_table table_name (state_before n s)).0

  abbrev Outcome : Type 0
  Outcome = Result (Bool × List ℕ) × DynamoDbHelper

  found :
      (more : ℕ → List ℕ → DynamoDbHelper → Outcome) (last : Bool) (b c : ℕ) (cs : Bytes)
      (sleeps : List ℕ) (r : Result Bytes × DynamoDbHelper)
      → r.0 ≡ ok (c ∷ cs)
      → after_attempt describe_table more table_name last b sleeps r
        ≡ (ok (true, sleeps), set_key_name table_name (c ∷ cs) r.1)
  unfolding after_attempt
  found more last b c cs sleeps (a, s) e = rw e refl

  not_found :
      (more : ℕ → List ℕ → DynamoDbHelper → Outcome) (b : ℕ) (sleeps : List ℕ)
      (r : Result Bytes × DynamoDbHelper)
      → b * 2 < 2 ^ 63
      → r.0 ≡ ok []
      → after_attempt describe_table more table_name false b sleeps r
        ≡ more (b * 2) (sleeps ++ slept b) r.1
  unfolding after_attempt doubled
  not_found more b sleeps (a, s) small e = elim (Bool-cases (ltb 0 b)) [
    | inl h ↦
        let positive : is_positive b ≡ true = ground arith in
        let exact : b * 2 % 2 ^ 64 ≡ b * 2 = omega arith in rw (e, positive, h, exact) refl
    | inr h ↦
        let none : b ≡ 0 = ground arith in
        rw (e, none) (ap (λ xs. more 0 xs s) (sym (append-nil sleeps)))
  ]

  not_found_last :
      (more : ℕ → List ℕ → DynamoDbHelper → Outcome) (b : ℕ) (sleeps : List ℕ)
      (r : Result Bytes × DynamoDbHelper)
      → r.0 ≡ ok []
      → after_attempt describe_table more table_name true b sleeps r ≡ (ok (false, sleeps), r.1)
  unfolding after_attempt
  not_found_last more b sleeps (a, s) e = rw e refl

  -- The rounds from a state on, after an attempt that found nothing.
  go_on :
      (left b : ℕ) (sleeps : List ℕ) (s : DynamoDbHelper) (n : ℕ) (result : List ℕ → Outcome)
      → b * 2 ^ suc n < 2 ^ 63
      → found_by 0 s ≡ ok []
      → attempt_from describe_table
          (suc left)
          table_name
          (b * 2)
          (sleeps ++ slept b)
          (discover_partition_key_name describe_table table_name s).1
        ≡ result ((sleeps ++ slept b) ++ pauses_of (b * 2) n)
      → attempt_from describe_table (suc (suc left)) table_name b sleeps s
        ≡ result (sleeps ++ pauses_of b (suc n))
  unfolding attempt_from found_by state_before
  go_on left b sleeps s n result small e more =
      not_found (attempt_from describe_table (suc left) table_name) b sleeps
        (discover_partition_key_name describe_table table_name s)
        (omega (arith, backoff_le (b * 2) n, power b n)) e
      ∙ (more ∙ ap result (pauses_of_first b n sleeps))

  attempt_from_finds :
      (n left b : ℕ) (sleeps : List ℕ) (s : DynamoDbHelper) (c : ℕ) (cs : Bytes)
      → n < left
      → b * 2 ^ n < 2 ^ 63
      → ((j : ℕ) → j < n → found_by j s ≡ ok [])
      → found_by n s ≡ ok (c ∷ cs)
      → attempt_from describe_table left table_name b sleeps s ≡ (
        ok (true, sleeps ++ pauses_of b n),
        set_key_name table_name (c ∷ cs) (state_before (suc n) s),
      )
  unfolding attempt_from found_by state_before
  attempt_from_finds n zero b sleeps s c cs h small before e = elim h [ ]
  attempt_from_finds zero (suc left) b sleeps s c cs h small before e =
      let r = discover_partition_key_name describe_table table_name s in
      found (attempt_from describe_table left table_name) (is_zero left) b c cs sleeps r e
      ∙ ap (λ xs. (ok (true, xs), set_key_name table_name (c ∷ cs) r.1)) (no_pauses b sleeps)
  attempt_from_finds (suc n) (suc zero) b sleeps s c cs h small before e = absurd (omega arith)
  attempt_from_finds (suc n) (suc (suc left)) b sleeps s c cs h small before e =
      let r = discover_partition_key_name describe_table table_name s in
      go_on left b sleeps s n
        (λ xs. (ok (true, xs), set_key_name table_name (c ∷ cs) (state_before (suc n) r.1))) small
        (before 0 (omega arith))
        (attempt_from_finds n (suc left) (b * 2) (sleeps ++ slept b) r.1 c cs (omega arith)
          (omega (arith, power b n)) (λ j k. before (suc j) (omega arith)) e)

  attempt_from_fails :
      (left b : ℕ) (sleeps : List ℕ) (s : DynamoDbHelper)
      → b * 2 ^ left < 2 ^ 63
      → ((j : ℕ) → j < suc left → found_by j s ≡ ok [])
      → attempt_from describe_table (suc left) table_name b sleeps s
        ≡ (ok (false, sleeps ++ pauses_of b left), state_before (suc left) s)
  unfolding attempt_from found_by state_before
  attempt_from_fails zero b sleeps s small none =
      let r = discover_partition_key_name describe_table table_name s in
      not_found_last (attempt_from describe_table zero table_name) b sleeps r (none 0 (omega arith))
      ∙ ap (λ xs. (ok (false, xs), r.1)) (no_pauses b sleeps)
  attempt_from_fails (suc left) b sleeps s small none =
      let r = discover_partition_key_name describe_table table_name s in
      go_on left b sleeps s left (λ xs. (ok (false, xs), state_before (suc left) r.1)) small
        (none 0 (omega arith))
        (attempt_from_fails left (b * 2) (sleeps ++ slept b) r.1 (omega (arith, power b left))
          (λ j k. none (suc j) (omega arith)))

  -- For a table with a name, and a configured backoff b with b * 2 ^ n below 2 ^ 63, the limit of its
  -- 64-bit count: when the attempts before the one numbered n (from 0) find no name, and that one
  -- does, and n is below the number of attempts, UpdatePartitionKeyName asks n + 1 times, sleeps
  -- n times, the time numbered i for b * 2 ^ i milliseconds (not at all if b is 0), and returns true
  -- with the name set.
  pub update_partition_key_name_finds :
      (n : ℕ) (s : DynamoDbHelper) (c : ℕ) (cs : Bytes)
      → table_name ≢ []
      → n < s.config.key_route_affinity.partition_key_discovery_attempts
      → s.config.key_route_affinity.partition_key_discovery_initial_backoff * 2 ^ n < 2 ^ 63
      → ((j : ℕ) → j < n → found_by j s ≡ ok [])
      → found_by n s ≡ ok (c ∷ cs)
      → update_partition_key_name describe_table table_name s ≡ (
        ok (true, pauses_of s.config.key_route_affinity.partition_key_discovery_initial_backoff n),
        set_key_name table_name (c ∷ cs) (state_before (suc n) s),
      )
  unfolding update_partition_key_name
  update_partition_key_name_finds n s c cs named few small before e =
      rw (named_lem table_name named) (attempt_from_finds n _ _ [] s c cs few small before e)

  -- For a table with a name, and a configured backoff b with b * 2 ^ (attempts - 1) below 2 ^ 63, the
  -- limit of its 64-bit count: when none of the attempts, of which there is at least one, finds a
  -- name, UpdatePartitionKeyName asks exactly so many times as there are attempts and returns false.
  -- It sleeps attempts - 1 times if b is positive and not at all if b is 0, and the sleeps take
  -- b * (2 ^ (attempts - 1) - 1) milliseconds together.
  pub update_partition_key_name_gives_up :
      (limit : ℕ) (s : DynamoDbHelper)
      → table_name ≢ []
      → s.config.key_route_affinity.partition_key_discovery_attempts ≡ suc limit
      → s.config.key_route_affinity.partition_key_discovery_initial_backoff * 2 ^ limit < 2 ^ 63
      → ((j : ℕ) → j < suc limit → found_by j s ≡ ok [])
      → (sleeps : List ℕ) × (update_partition_key_name describe_table table_name s
          ≡ (ok (false, sleeps), state_before (suc limit) s))
        × (length sleeps ≡ (
            if ltb 0 s.config.key_route_affinity.partition_key_discovery_initial_backoff
            then limit
            else 0))
        × (total sleeps + s.config.key_route_affinity.partition_key_discovery_initial_backoff
            ≡ s.config.key_route_affinity.partition_key_discovery_initial_backoff * 2 ^ limit)
  unfolding update_partition_key_name
  update_partition_key_name_gives_up limit s named attempts small none =
      let b = s.config.key_route_affinity.partition_key_discovery_initial_backoff in
      (
        pauses_of b limit,
        rw (named_lem table_name named) (
            ap (λ a. attempt_from describe_table a table_name b [] s) attempts
            ∙ attempt_from_fails limit b [] s small none),
        length-pauses_of b limit,
        total-pauses_of b limit,
      )
