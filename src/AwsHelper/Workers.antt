-- ===== src/AwsHelper/Workers.antt =====
-- src/aws_dynamodb_helper.cpp: the threads of partition key discovery. A helper goes from state to
-- state by requests that trigger a discovery, by threads that end, and by WaitForPartitionKeyDiscovery.
use alternator_client_cpp.Base.{
  ℕ, zero, suc, ◌+◌, ◌<◌, Bool, true, false, not, ◌&&◌, ◌||◌, List, [], ◌∷◌, ◌++◌, some,
  if◌then◌else◌, is_empty, nat_eq, holds_if, Bool-cases, Option-cases, Result, ok, err, ◌≡◌, inl,
  inr, refl, sym, ◌∙◌, ap, subst, arith,
}
use alternator_client_cpp.Base.Bytes.{Bytes, bytes_eq, bytes_eq_iff}
use alternator_client_cpp.Base.Durations.{is_positive, doubled}
use alternator_client_cpp.Base.OrderedMap.{
  find, erase_key, find-emplace, emplace_there, find-erase_key,
}
use alternator_client_cpp.AwsHelper.{string_key, StringSet, set_insert, set_contains}
use alternator_client_cpp.AwsHelper.Client.{Worker, DynamoDbHelper, set_key_name}
use alternator_client_cpp.AwsHelper.Discovery.{
  DescribeTable, discover_partition_key_name, after_attempt, is_zero, attempt_from,
  update_partition_key_name, end_worker, run_worker, join_all, wait_for_partition_key_discovery,
  trigger_partition_key_discovery,
}

set_contains-set_insert :
    (t x : Bytes) (set : StringSet)
    → set_contains x (set_insert t set) ≡ (bytes_eq t x || set_contains x set)
unfolding set_contains set_insert
set_contains-set_insert t x set = elim (Option-cases (find string_key t set)) [
  | inl e ↦ rw (find-emplace string_key t x tt set e) (ground arith)
  | inr (u, e) ↦ rw (emplace_there string_key t tt u set e) (elim (Bool-cases (bytes_eq t x)) [
    | inl same ↦
        let eq : t ≡ x = (bytes_eq_iff t x).0 same in
        let there : find string_key x set ≡ some u =
          subst (λ y. find string_key y set ≡ some u) eq e in
        rw (same, there) refl
    | inr other ↦ rw other refl
  ])
]

set_contains-erase_key :
    (t x : Bytes) (set : StringSet)
    → set_contains x (erase_key string_key t set) ≡ (not (bytes_eq t x) && set_contains x set)
unfolding set_contains
set_contains-erase_key t x set = rw (find-erase_key string_key t x set) (ground arith)

-- How many threads run for a table.
unfoldable pub running : Bytes → List Worker → ℕ
running t [] = 0
running t (w ∷ ws) = (if not w.ended && bytes_eq w.table_name t then 1 else 0) + running t ws

running-append :
    (t : Bytes) (ws vs : List Worker) → running t (ws ++ vs) ≡ running t ws + running t vs
unfolding running
running-append t [] vs = omega arith
running-append t (w ∷ ws) vs = omega (arith, running-append t ws vs)

-- The end of a thread of a table is one thread less of it, and as many of the others.
running-end_worker :
    (describe_table : DescribeTable) (t x : Bytes) (ws : List Worker)
    → 0 < running t ws
    → running x ws ≡ (if bytes_eq t x then 1 else 0) + running x (end_worker describe_table t ws)
unfolding running end_worker
running-end_worker describe_table t x [] h = ground arith
running-end_worker describe_table t x (w ∷ ws) h = ground (
  arith,
  running-end_worker describe_table t x ws,
  bytes_eq_iff w.table_name t,
  bytes_eq_iff w.table_name x,
  bytes_eq_iff t x,
)

-- A set of tables in progress and threads: a table is in the set if one thread runs for it, and else
-- none does.
Agrees : StringSet → List Worker → Type 0
Agrees set ws = (t : Bytes) → running t ws ≡ (if set_contains t set then 1 else 0)

module _ (describe_table : DescribeTable) where
  -- The threads and the set are those of another state.
  Same : DynamoDbHelper → DynamoDbHelper → Type 0
  Same s s' = (s'.workers ≡ s.workers) × (s'.in_progress ≡ s.in_progress)

  after_attempt-Same :
      (more : ℕ → List ℕ → DynamoDbHelper → Result (Bool × List ℕ) × DynamoDbHelper) (t : Bytes)
      (last : Bool) (b : ℕ) (sleeps : List ℕ) (s : DynamoDbHelper)
      (r : Result Bytes × DynamoDbHelper)
      → Same s r.1
      → ((b' : ℕ) (sleeps' : List ℕ) → Same s (more b' sleeps' r.1).1)
      → Same s (after_attempt describe_table more t last b sleeps r).1
  unfolding Same after_attempt set_key_name
  after_attempt-Same more t last b sleeps s (err e, s') h k = h
  after_attempt-Same more t last b sleeps s (ok (c ∷ cs), s') h k = h
  after_attempt-Same more t true b sleeps s (ok [], s') h k = h
  after_attempt-Same more t false b sleeps s (ok [], s') h k =
      holds_if {A = Result (Bool × List ℕ) × DynamoDbHelper} (λ r. Same s r.1) (is_positive b)
        (k (doubled b) (sleeps ++ b ∷ [])) (k b sleeps)

  discovered-Same :
      (t : Bytes) (s : DynamoDbHelper) → Same s (discover_partition_key_name describe_table t s).1
  unfolding Same discover_partition_key_name
  discovered-Same t s = (refl, refl)

  Same-trans : (r s t : DynamoDbHelper) → Same r s → Same s t → Same r t
  unfolding Same
  Same-trans r s t h k = (k.0 ∙ h.0, k.1 ∙ h.1)

  attempt_from-Same :
      (left : ℕ) (t : Bytes) (b : ℕ) (sleeps : List ℕ) (s : DynamoDbHelper)
      → Same s (attempt_from describe_table left t b sleeps s).1
  unfolding Same attempt_from
  attempt_from-Same zero t b sleeps s = (refl, refl)
  attempt_from-Same (suc left) t b sleeps s =
      let found = discover_partition_key_name describe_table t s in
      after_attempt-Same (attempt_from describe_table left t) t (is_zero left) b sleeps s found
        (discovered-Same t s)
        (λ b' sleeps'.
          Same-trans s found.1 (attempt_from describe_table left t b' sleeps' found.1).1
            (discovered-Same t s) (attempt_from-Same left t b' sleeps' found.1))

  update-Same :
      (t : Bytes) (s : DynamoDbHelper) → Same s (update_partition_key_name describe_table t s).1
  unfolding Same update_partition_key_name
  update-Same t s = elim (Bool-cases (is_empty t)) [
    | inl e ↦ rw e (refl, refl)
    | inr e ↦ rw e (attempt_from-Same _ t _ [] s)
  ]

  -- A thread that ends takes its table out of the set.
  run_worker-workers :
      (t : Bytes) (s : DynamoDbHelper)
      → ((run_worker describe_table t s).workers ≡ end_worker describe_table t s.workers)
        × ((run_worker describe_table t s).in_progress ≡ erase_key string_key t s.in_progress)
  unfolding run_worker Same
  run_worker-workers t s =
      let (p, q) = update-Same t s in
      (ap (end_worker describe_table t) p, ap (erase_key string_key t) q)

  pub data Step : DynamoDbHelper → DynamoDbHelper → Type 0 where
    triggers :
        (spawns : Bool) (table_name : Bytes) (s : DynamoDbHelper)
        → Step s (trigger_partition_key_discovery spawns table_name s)
    ends :
        (table_name : Bytes) (s : DynamoDbHelper)
        → 0 < running table_name s.workers
        → Step s (run_worker describe_table table_name s)
    waits : (s : DynamoDbHelper) → Step s (wait_for_partition_key_discovery describe_table s)

  pub data Reaches : DynamoDbHelper → DynamoDbHelper → Type 0 where
    start : (s : DynamoDbHelper) → Reaches s s
    after : {r s t : DynamoDbHelper} → Reaches r s → Step s t → Reaches r t

  triggers-Agrees :
      (spawns : Bool) (t : Bytes) (s : DynamoDbHelper)
      → Agrees s.in_progress s.workers
      → Agrees
          (trigger_partition_key_discovery spawns t s).in_progress
          (trigger_partition_key_discovery spawns t s).workers
  unfolding Agrees trigger_partition_key_discovery running
  triggers-Agrees spawns t s h x = ground (
    arith,
    h x,
    bytes_eq_iff t x,
    set_contains-set_insert t x s.in_progress,
    set_contains-erase_key t x (set_insert t s.in_progress),
    running-append x s.workers (record { table_name = t; ended = false } ∷ []),
  )

  ends-Agrees :
      (t : Bytes) (set : StringSet) (ws : List Worker)
      → 0 < running t ws
      → Agrees set ws
      → Agrees (erase_key string_key t set) (end_worker describe_table t ws)
  unfolding Agrees
  ends-Agrees t set ws runs h x = ground (
    arith,
    h x,
    h t,
    bytes_eq_iff t x,
    set_contains-erase_key t x set,
    running-end_worker describe_table t x ws runs,
  )

  -- Joining some threads takes the tables of those that still run out of the set.
  joined :
      (ws : List Worker) (s : DynamoDbHelper)
      → s.workers ≡ []
      → ((join_all describe_table ws s).workers ≡ [])
        × ((x : Bytes)
            → set_contains x (join_all describe_table ws s).in_progress
              ≡ (set_contains x s.in_progress && nat_eq (running x ws) 0))
  unfolding join_all running
  joined [] s none_left = (none_left, λ x. ground arith)
  joined (w ∷ ws) s none_left = elim (Bool-cases w.ended) [
    | inl e ↦ let (p, q) = joined ws s none_left in rw e (p, λ x. q x ∙ ground arith)
    | inr e ↦
        let (workers, set) = run_worker-workers w.table_name s in
        let still : (run_worker describe_table w.table_name s).workers ≡ [] =
          workers ∙ ap (end_worker describe_table w.table_name) none_left in
        let (p, q) = joined ws (run_worker describe_table w.table_name s) still in
        rw e (
          p,
          λ x.
              q x
              ∙ (ap (λ t. set_contains x t && nat_eq (running x ws) 0) set
                  ∙ ground (arith, set_contains-erase_key w.table_name x s.in_progress)),
        )
  ]

  waits-Agrees :
      (s : DynamoDbHelper)
      → Agrees s.in_progress s.workers
      → Agrees
          (wait_for_partition_key_discovery describe_table s).in_progress
          (wait_for_partition_key_discovery describe_table s).workers
  unfolding Agrees wait_for_partition_key_discovery running
  waits-Agrees s h x =
      let (p, q) = joined s.workers (record s { workers = [] }) refl in
      ap (running x) p ∙ ground (arith, h x, q x)

  Step-Agrees :
      {s t : DynamoDbHelper}
      → Step s t
      → Agrees s.in_progress s.workers
      → Agrees t.in_progress t.workers
  Step-Agrees (triggers spawns table_name s) h = triggers-Agrees spawns table_name s h
  Step-Agrees (ends table_name s runs) h =
      let (p, q) = run_worker-workers table_name s in
      subst (λ set. Agrees set (run_worker describe_table table_name s).workers) (sym q)
        (subst (Agrees (erase_key string_key table_name s.in_progress)) (sym p)
          (ends-Agrees table_name s.in_progress s.workers runs h))
  Step-Agrees (waits s) h = waits-Agrees s h

  Reaches-Agrees :
      {s t : DynamoDbHelper}
      → Reaches s t
      → Agrees s.in_progress s.workers
      → Agrees t.in_progress t.workers
  Reaches-Agrees (start s) h = h
  Reaches-Agrees (after path step) h = Step-Agrees step (Reaches-Agrees path h)

  -- From a helper without threads or tables in progress, by whatever triggers, ends of threads and
  -- waits, and whatever DescribeTable answers: at most one discovery thread runs for a table, and one
  -- runs exactly if the table is in the set in_progress.
  pub one_worker_per_table :
      (s s' : DynamoDbHelper) (table_name : Bytes)
      → s.workers ≡ []
      → s.in_progress ≡ []
      → Reaches s s'
      → running table_name s'.workers ≡ (if set_contains table_name s'.in_progress then 1 else 0)
  unfolding Agrees running set_contains
  one_worker_per_table s s' table_name no_workers no_tables path =
      Reaches-Agrees path (λ t. rw (no_workers, no_tables) refl) table_name
