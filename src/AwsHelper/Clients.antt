-- ===== src/AwsHelper/Clients.antt =====
-- src/aws_dynamodb_helper.cpp: the clients that NewDynamoDBForNode keeps.
use alternator_client_cpp.Base.{
  ℕ, Bool, true, false, List, [], ◌∷◌, Option, none, some, Option-cases, Bool-cases, is_empty, ◌++◌,
  ◌≡◌, inl, inr, refl, sym, ◌∙◌, ap, subst,
}
use alternator_client_cpp.Base.Bytes.{Bytes, bytes_eq, bytes_eq_iff}
use alternator_client_cpp.Base.OrderedMap.{
  find, find-emplace, find-key, AllEntries, emplace-AllEntries, find-AllEntries,
}
use alternator_client_cpp.Url.{Url, is_empty_url, to_string}
use alternator_client_cpp.LiveNodes.{LiveNodes, HttpAnswer}
use alternator_client_cpp.AwsHelper.Endpoint.{resolve_fixed}
use alternator_client_cpp.AwsHelper.Client.{
  DynamoDbClient, fixed_endpoint_provider, DynamoDbHelper, new_dynamodb_with_endpoint_provider,
  new_dynamodb_for_node, client_or_new, resolve_endpoint,
}

IsFixedAt : Url → DynamoDbClient → Type 0
IsFixedAt u client = client.endpoint_provider ≡ fixed_endpoint_provider u

-- Each client that is kept is fixed at the address it is kept under.
AllFixed : DynamoDbHelper → Type 0
AllFixed s = AllEntries IsFixedAt s.fixed_clients

-- The calls of NewDynamoDBForNode for some nodes, one after the other.
unfoldable pub clients_for : List Url → DynamoDbHelper → DynamoDbHelper
clients_for [] s = s
clients_for (u ∷ us) s = clients_for us (new_dynamodb_for_node u s).1

abbrev Kept : Url → DynamoDbClient → DynamoDbHelper → Type 0
Kept u client s = find to_string u s.fixed_clients ≡ some client

same_text : (u : Url) → bytes_eq (to_string u) (to_string u) ≡ true
same_text u = (bytes_eq_iff (to_string u) (to_string u)).1 refl

module _ (u : Url) (s : DynamoDbHelper) where
  for_node-AllFixed : AllFixed s → AllFixed (new_dynamodb_for_node u s).1
  unfolding AllFixed IsFixedAt new_dynamodb_for_node client_or_new
      new_dynamodb_with_endpoint_provider
  for_node-AllFixed h = by_found (find to_string u s.fixed_clients)
    where
      by_found : (o : Option DynamoDbClient) → AllFixed (client_or_new u s o).1
      by_found none =
          emplace-AllEntries to_string IsFixedAt u
            (new_dynamodb_with_endpoint_provider (fixed_endpoint_provider u) s).0 s.fixed_clients
            refl h
      by_found (some client) = h

  for_node-Kept : Kept u (new_dynamodb_for_node u s).0 (new_dynamodb_for_node u s).1
  unfolding new_dynamodb_for_node client_or_new
  for_node-Kept = elim (Option-cases (find to_string u s.fixed_clients)) [
    | inl e ↦ rw e (
        find-emplace to_string u u
          (new_dynamodb_with_endpoint_provider (fixed_endpoint_provider u) s).0 s.fixed_clients e
        ∙ rw (same_text u) refl)
    | inr (client, e) ↦ rw e e
  ]

  for_node_again :
      (client : DynamoDbClient) → Kept u client s → new_dynamodb_for_node u s ≡ (client, s)
  unfolding new_dynamodb_for_node client_or_new
  for_node_again client e = rw e refl

  -- A client that is kept stays when another node's is made.
  for_node-keeps :
      (v : Url) (client : DynamoDbClient)
      → Kept v client s
      → Kept v client (new_dynamodb_for_node u s).1
  unfolding new_dynamodb_for_node client_or_new
  for_node-keeps v client kept = elim (Option-cases (find to_string u s.fixed_clients)) [
    | inl e ↦ rw e (
        find-emplace to_string u v
          (new_dynamodb_with_endpoint_provider (fixed_endpoint_provider u) s).0 s.fixed_clients e
        ∙ elim (Bool-cases (bytes_eq (to_string u) (to_string v))) [
          | inl same ↦
              let text = (bytes_eq_iff (to_string u) (to_string v)).0 same in
              let clash : none ≡ some client =
                sym e ∙ (find-key to_string u v s.fixed_clients text ∙ kept) in
              cc
          | inr other ↦ rw other kept
        ])
    | inr (other, e) ↦ rw e kept
  ]

clients_for-AllFixed :
    (us : List Url) (s : DynamoDbHelper) → AllFixed s → AllFixed (clients_for us s)
unfolding clients_for
clients_for-AllFixed [] s h = h
clients_for-AllFixed (u ∷ us) s h =
    clients_for-AllFixed us (new_dynamodb_for_node u s).1 (for_node-AllFixed u s h)

clients_for-keeps :
    (us : List Url) (u : Url) (client : DynamoDbClient) (s : DynamoDbHelper)
    → Kept u client s
    → Kept u client (clients_for us s)
unfolding clients_for
clients_for-keeps [] u client s h = h
clients_for-keeps (v ∷ us) u client s h =
    clients_for-keeps us u client (new_dynamodb_for_node v s).1 (for_node-keeps v s u client h)

is_empty-append : (xs ys : Bytes) (c : ℕ) → is_empty (xs ++ c ∷ ys) ≡ false
is_empty-append [] ys c = refl
is_empty-append (x ∷ xs) ys c = refl

-- An address is empty where its string is.
is_empty_url-to_string : (u : Url) → is_empty (to_string u) ≡ is_empty_url u
unfolding to_string is_empty_url
is_empty_url-to_string u = elim (Bool-cases (is_empty u.host)) [
  | inl e ↦ rw e refl
  | inr e ↦ rw e (is_empty-append u.scheme _ b':')
]

resolve_fixed_by_text : (u v : Url) → to_string u ≡ to_string v → resolve_fixed u ≡ resolve_fixed v
unfolding resolve_fixed
resolve_fixed_by_text u v e =
    let empty : is_empty_url u ≡ is_empty_url v =
      sym (is_empty_url-to_string u)
      ∙ (ap {B = Bool} (λ t. is_empty t) e ∙ is_empty_url-to_string v) in
    rw (empty, e) refl

resolve-Kept :
    (http : Url → HttpAnswer) (now : ℕ) (nodes : LiveNodes) (u : Url) (client : DynamoDbClient)
    (s : DynamoDbHelper)
    → AllFixed s
    → Kept u client s
    → resolve_endpoint http now client.endpoint_provider nodes ≡ (resolve_fixed u, nodes)
unfolding AllFixed IsFixedAt resolve_endpoint
resolve-Kept http now nodes u client s all kept =
    let (v, text, fixed) = find-AllEntries to_string IsFixedAt u client s.fixed_clients kept all in
    rw fixed (ap (λ r. (r, nodes)) (resolve_fixed_by_text v u text))

-- For a helper that has made no client for a node yet, whatever nodes it makes clients for first: the
-- client that NewDynamoDBForNode gives for a node resolves every endpoint to that node's address,
-- without asking the live nodes, and after clients for whatever nodes it gives the same client for the
-- node again and makes no new one.
pub new_dynamodb_for_node_reuses :
    (http : Url → HttpAnswer) (now : ℕ) (nodes : LiveNodes) (before after : List Url) (u : Url)
    (s : DynamoDbHelper)
    → s.fixed_clients ≡ []
    → (resolve_endpoint http now
          (new_dynamodb_for_node u (clients_for before s)).0.endpoint_provider
          nodes
        ≡ (resolve_fixed u, nodes))
      × (new_dynamodb_for_node u
            (clients_for after (new_dynamodb_for_node u (clients_for before s)).1)
          ≡ (
            (new_dynamodb_for_node u (clients_for before s)).0,
            clients_for after (new_dynamodb_for_node u (clients_for before s)).1,
          ))
unfolding AllFixed AllEntries
new_dynamodb_for_node_reuses http now nodes before after u s fresh =
    let start = clients_for before s in
    let (client, s') = new_dynamodb_for_node u start in
    let at_first : AllFixed s = subst (AllEntries IsFixedAt) (sym fresh) no_entries in
    let all : AllFixed s' = for_node-AllFixed u start (clients_for-AllFixed before s at_first) in
    let kept : Kept u client s' = for_node-Kept u start in
    (
      resolve-Kept http now nodes u client s' all kept,
      for_node_again u (clients_for after s') client (clients_for-keeps after u client s' kept),
    )
  where
    no_entries : AllEntries IsFixedAt []
    no_entries = tt
