-- ===== src/Base/OrderedMap.antt =====
-- std::map: an association list in the order of its keys. Two keys are one where their texts are,
-- which is where neither text is below the other (`bytes_lt_total`).
use mathlib.Core.Path.{◌≡◌, refl, subst}
use mathlib.Core.Option.{Option, none, some}
use mathlib.Core.List.{List, [], ◌∷◌}
use native.Mathlib.Omega.{arith}
use mathlib.Core.Logic.{inl, inr}
use alternator_client_cpp.Base.Tests.{if◌then◌else◌, holds_if, Bool-cases}
use alternator_client_cpp.Base.Bytes.{Bytes, bytes_eq, bytes_eq_iff, bytes_lt}

-- `key` gives the text by which std::less compares.
module _ {ℓ κ} {K : Type ℓ} {V : Type κ} (key : K → Bytes) where
  unfoldable pub find : K → List (K × V) → Option V
  find k [] = none
  find k ((j, v) ∷ m) = if bytes_eq (key j) (key k) then some v else find k m

  -- The place of a new key in the order.
  insert_new : K → V → List (K × V) → List (K × V)
  insert_new k v [] = (k, v) ∷ []
  insert_new k v ((j, w) ∷ m) =
      let rest = insert_new k v m in
      if bytes_lt (key k) (key j) then (k, v) ∷ (j, w) ∷ m else (j, w) ∷ rest

  -- The value under a key that is there is replaced; the key object stays.
  replace : K → V → List (K × V) → List (K × V)
  replace k v [] = []
  replace k v ((j, w) ∷ m) =
      let rest = replace k v m in if bytes_eq (key j) (key k) then (j, v) ∷ m else (j, w) ∷ rest

  -- std::map::emplace: nothing changes if the key is there.
  unfoldable pub emplace : K → V → List (K × V) → List (K × V)
  unfolding find insert_new
  emplace k v m = elim (find k m) [ none ↦ insert_new k v m | some w ↦ m ]

  -- m[k] = v
  unfoldable pub assign : K → V → List (K × V) → List (K × V)
  unfolding find insert_new replace
  assign k v m = elim (find k m) [ none ↦ insert_new k v m | some w ↦ replace k v m ]

  -- std::map::erase by key.
  unfoldable pub erase_key : K → List (K × V) → List (K × V)
  erase_key k [] = []
  erase_key k ((j, w) ∷ m) =
      let rest = erase_key k m in if bytes_eq (key j) (key k) then rest else (j, w) ∷ rest

  unfoldable pub keys : List (K × V) → List K
  keys [] = []
  keys ((j, w) ∷ m) = j ∷ keys m

  find-insert_new :
      (k j : K) (v : V) (m : List (K × V))
      → find k m ≡ none
      → find j (insert_new k v m) ≡ (if bytes_eq (key k) (key j) then some v else find j m)
  unfolding find insert_new
  find-insert_new k j v [] h = refl
  find-insert_new k j v ((i, w) ∷ m) h = ground (
    arith,
    find-insert_new k j v m,
    bytes_eq_iff (key i) (key k),
    bytes_eq_iff (key i) (key j),
    bytes_eq_iff (key k) (key j),
  )

  find-replace :
      (k j : K) (v w : V) (m : List (K × V))
      → find k m ≡ some w
      → find j (replace k v m) ≡ (if bytes_eq (key k) (key j) then some v else find j m)
  unfolding find replace
  find-replace k j v w [] h = cc
  find-replace k j v w ((i, u) ∷ m) h = ground (
    arith,
    find-replace k j v w m,
    bytes_eq_iff (key i) (key k),
    bytes_eq_iff (key i) (key j),
    bytes_eq_iff (key k) (key j),
  )

  pub find-emplace :
      (k j : K) (v : V) (m : List (K × V))
      → find k m ≡ none
      → find j (emplace k v m) ≡ (if bytes_eq (key k) (key j) then some v else find j m)
  unfolding emplace
  find-emplace k j v m h = ground (arith, find-insert_new k j v m h)

  pub emplace_there : (k : K) (v w : V) (m : List (K × V)) → find k m ≡ some w → emplace k v m ≡ m
  unfolding emplace
  emplace_there k v w m h = ground arith

  pub find-assign :
      (k j : K) (v : V) (m : List (K × V))
      → find j (assign k v m) ≡ (if bytes_eq (key k) (key j) then some v else find j m)
  unfolding assign
  find-assign k j v m = go (find k m) refl
    where
      go :
          (o : Option V)
          → find k m ≡ o
          → find j (elim o [ none ↦ insert_new k v m | some w ↦ replace k v m ])
            ≡ (if bytes_eq (key k) (key j) then some v else find j m)
      go none h = find-insert_new k j v m h
      go (some w) h = find-replace k j v w m h

  pub find-erase_key :
      (k j : K) (m : List (K × V))
      → find j (erase_key k m) ≡ (if bytes_eq (key k) (key j) then none else find j m)
  unfolding find erase_key
  find-erase_key k j [] = ground arith
  find-erase_key k j ((i, w) ∷ m) = ground (
    arith,
    find-erase_key k j m,
    bytes_eq_iff (key i) (key k),
    bytes_eq_iff (key i) (key j),
    bytes_eq_iff (key k) (key j),
  )

  -- Keys are told apart by their strings alone.
  pub find-key : (k j : K) (m : List (K × V)) → key k ≡ key j → find k m ≡ find j m
  unfolding find
  find-key k j [] e = refl
  find-key k j ((i, w) ∷ m) e =
      ground (arith, find-key k j m e, bytes_eq_iff (key i) (key k), bytes_eq_iff (key i) (key j))

-- Every key and its value.
unfoldable pub AllEntries {ℓ κ} :
    {K : Type ℓ} {V : Type κ} → (K → V → Type 0) → List (K × V) → Type 0
AllEntries P [] = Unit {0}
AllEntries P ((k, v) ∷ m) = P k v × AllEntries P m

module _ {ℓ κ} {K : Type ℓ} {V : Type κ} (key : K → Bytes) (P : K → V → Type 0) where
  insert_new-AllEntries :
      (k : K) (v : V) (m : List (K × V))
      → P k v
      → AllEntries P m
      → AllEntries P (insert_new key k v m)
  unfolding AllEntries insert_new
  insert_new-AllEntries k v [] h all = (h, all)
  insert_new-AllEntries k v ((j, w) ∷ m) h all =
      holds_if (AllEntries P) (bytes_lt (key k) (key j)) (h, all)
        (all.0, insert_new-AllEntries k v m h all.1)

  pub emplace-AllEntries :
      (k : K) (v : V) (m : List (K × V)) → P k v → AllEntries P m → AllEntries P (emplace key k v m)
  unfolding emplace
  emplace-AllEntries k v m h all = by_found (find key k m)
    where
      by_found : (o : Option V) → AllEntries P (elim o [ none ↦ insert_new key k v m | some w ↦ m ])
      by_found none = insert_new-AllEntries k v m h all
      by_found (some w) = all

  -- What is found stands under a key with the same text.
  pub find-AllEntries :
      (k : K) (v : V) (m : List (K × V))
      → find key k m ≡ some v
      → AllEntries P m
      → (j : K) × (key j ≡ key k) × P j v
  unfolding find AllEntries
  find-AllEntries k v [] e all = cc
  find-AllEntries k v ((j, w) ∷ m) e all = elim (Bool-cases (bytes_eq (key j) (key k))) [
    | inl same ↦
        let here : some w ≡ some v = rw same at e in
        let value : w ≡ v = cc in
        (j, (bytes_eq_iff (key j) (key k)).0 same, subst (P j) value all.0)
    | inr other ↦
        let later : find key k m ≡ some v = rw other at e in find-AllEntries k v m later all.1
  ]
