-- ===== src/KeyAffinity/Reads.antt =====
-- src/key_route_affinity.cpp: which writes ShouldUseKeyRouteAffinity selects.
use alternator_client_cpp.Base.{
  Bool, true, false, ◌||◌, List, [], ◌∷◌, ◌++◌, ◌≡◌, ◌⊎◌, ◌↔◌, inl, inr, refl, ◌∙◌, ap, Bool-cases,
  arith,
}
use alternator_client_cpp.Config.{KeyRouteAffinityMode, no_affinity, read_before_write, any_write}
use alternator_client_cpp.KeyAffinity.{
  WriteOperationKind, put_item, update_item, delete_item, WriteOperationOptions, ReturnValues,
  not_set, no_values, all_old, updated_old, all_new, updated_new, is_all_old,
  returns_old_or_all_new, AttributeAction, put, add, delete, AttributeUpdate, reads_old,
  any_reads_old, does_write_need_read_before_write, should_use_key_route_affinity,
}

-- What makes a write one that reads the item first.
pub data ReadsItem (kind : WriteOperationKind) (o : WriteOperationOptions) : Type 0 where
  has_a_condition : o.has_condition_expression ≡ true → ReadsItem kind o
  has_expected_values : o.has_expected ≡ true → ReadsItem kind o
  returns_old_item : o.return_values ≡ all_old → ReadsItem kind o
  has_an_expression : kind ≡ update_item → o.has_update_expression ≡ true → ReadsItem kind o
  returns_attributes :
      kind ≡ update_item
      → (o.return_values ≡ updated_old) ⊎ (o.return_values ≡ all_new)
      → ReadsItem kind o
  updates_by_old_value :
      kind ≡ update_item
      → (before after : List AttributeUpdate) (u : AttributeUpdate)
      → o.attribute_updates ≡ before ++ u ∷ after
      → (u.action ≡ add) ⊎ ((u.action ≡ delete) × (u.has_value ≡ true))
      → ReadsItem kind o

reads_append :
    (us vs : List AttributeUpdate)
    → any_reads_old (us ++ vs) ≡ (any_reads_old us || any_reads_old vs)
unfolding any_reads_old
reads_append [] vs = refl
reads_append (u ∷ us) vs = ground (arith, reads_append us vs)

reads_cases :
    (a : AttributeAction) (b : Bool)
    → reads_old a b ≡ true
    → (a ≡ add) ⊎ ((a ≡ delete) × (b ≡ true))
unfolding reads_old
reads_cases add b h = inl refl
reads_cases delete b h = inr (refl, h)
reads_cases put b h = cc

reads_from :
    (a : AttributeAction) (b : Bool)
    → (a ≡ add) ⊎ ((a ≡ delete) × (b ≡ true))
    → reads_old a b ≡ true
unfolding reads_old
reads_from a b (inl e) = rw e refl
reads_from a b (inr (e, f)) = rw (e, f) refl

-- An update of the loop at which it returns true.
found_update :
    (us : List AttributeUpdate)
    → any_reads_old us ≡ true
    → (before after : List AttributeUpdate) × (u : AttributeUpdate) × (us ≡ before ++ u ∷ after)
      × (reads_old u.action u.has_value ≡ true)
unfolding any_reads_old
found_update [] h = cc
found_update (u ∷ us) h = elim (Bool-cases (reads_old u.action u.has_value)) [
  | inl e ↦ ([], us, u, refl, e)
  | inr e ↦
      let later : any_reads_old us ≡ true = rw e at h in
      let (before, after, v, split, f) = found_update us later in
      (u ∷ before, after, v, ap (λ vs. u ∷ vs) split, f)
]

update_at :
    (before after : List AttributeUpdate) (u : AttributeUpdate)
    → reads_old u.action u.has_value ≡ true
    → any_reads_old (before ++ u ∷ after) ≡ true
unfolding any_reads_old
update_at before after u h = ground (arith, h, reads_append before (u ∷ after))

returned_cases :
    (v : ReturnValues)
    → returns_old_or_all_new v ≡ true
    → (v ≡ all_old) ⊎ ((v ≡ updated_old) ⊎ (v ≡ all_new))
unfolding returns_old_or_all_new
returned_cases all_old h = inl refl
returned_cases updated_old h = inr (inl refl)
returned_cases all_new h = inr (inr refl)
returned_cases not_set h = cc
returned_cases no_values h = cc
returned_cases updated_new h = cc

old_cases : (v : ReturnValues) → is_all_old v ≡ true → v ≡ all_old
unfolding is_all_old
old_cases all_old h = refl
old_cases not_set h = cc
old_cases no_values h = cc
old_cases updated_old h = cc
old_cases all_new h = cc
old_cases updated_new h = cc

put_reads :
    (kind : WriteOperationKind) (o : WriteOperationOptions)
    → o.has_expected || (o.has_condition_expression || is_all_old o.return_values) ≡ true
    → ReadsItem kind o
put_reads kind o h = elim (Bool-cases (o.has_expected)) [
  | inl e ↦ has_expected_values e
  | inr e ↦ elim (Bool-cases (o.has_condition_expression)) [
    | inl f ↦ has_a_condition f
    | inr f ↦ returns_old_item (old_cases o.return_values (ground (arith, e, f, h)))
  ]
]

update_reads :
    (o : WriteOperationOptions)
    → does_write_need_read_before_write update_item o ≡ true
    → ReadsItem update_item o
unfolding does_write_need_read_before_write
update_reads o h = elim (Bool-cases (o.has_update_expression)) [
  | inl e ↦ has_an_expression refl e
  | inr e ↦ elim (Bool-cases (o.has_condition_expression)) [
    | inl f ↦ has_a_condition f
    | inr f ↦ elim (Bool-cases (o.has_expected)) [
      | inl g ↦ has_expected_values g
      | inr g ↦ elim (Bool-cases (returns_old_or_all_new o.return_values)) [
        | inl r ↦ elim (returned_cases o.return_values r) [
          | inl old ↦ returns_old_item old
          | inr more ↦ returns_attributes refl more
        ]
        | inr r ↦
            let some : any_reads_old o.attribute_updates ≡ true = ground (arith, e, f, g, r, h) in
            let (before, after, u, split, reads) = found_update o.attribute_updates some in
            updates_by_old_value refl before after u split (reads_cases u.action u.has_value reads)
      ]
    ]
  ]
]

conditioned :
    (kind : WriteOperationKind) (o : WriteOperationOptions)
    → (o.has_condition_expression ≡ true) ⊎ (o.has_expected ≡ true)
    → does_write_need_read_before_write kind o ≡ true
unfolding does_write_need_read_before_write
conditioned put_item o h = ground (arith, h)
conditioned delete_item o h = ground (arith, h)
conditioned update_item o h = ground (arith, h)

all_old_returned : (is_all_old all_old ≡ true) × (returns_old_or_all_new all_old ≡ true)
unfolding is_all_old returns_old_or_all_new
all_old_returned = (refl, refl)

attributes_returned :
    (v : ReturnValues) → (v ≡ updated_old) ⊎ (v ≡ all_new) → returns_old_or_all_new v ≡ true
unfolding returns_old_or_all_new
attributes_returned v (inl e) = rw e refl
attributes_returned v (inr e) = rw e refl

returns_reads :
    (kind : WriteOperationKind) (o : WriteOperationOptions)
    → is_all_old o.return_values ≡ true
    → returns_old_or_all_new o.return_values ≡ true
    → does_write_need_read_before_write kind o ≡ true
unfolding does_write_need_read_before_write
returns_reads put_item o h k = ground (arith, h)
returns_reads delete_item o h k = ground (arith, h)
returns_reads update_item o h k = ground (arith, k)

update_of :
    (kind : WriteOperationKind) (o : WriteOperationOptions)
    → kind ≡ update_item
    → o.has_update_expression
        || (returns_old_or_all_new o.return_values || any_reads_old o.attribute_updates)
      ≡ true
    → does_write_need_read_before_write kind o ≡ true
unfolding does_write_need_read_before_write
update_of kind o e h = rw e (ground (arith, h))

reads_needed :
    (kind : WriteOperationKind) (o : WriteOperationOptions)
    → ReadsItem kind o
    → does_write_need_read_before_write kind o ≡ true
reads_needed kind o (has_a_condition e) = conditioned kind o (inl e)
reads_needed kind o (has_expected_values e) = conditioned kind o (inr e)
reads_needed kind o (returns_old_item e) =
    returns_reads kind o (ap is_all_old e ∙ all_old_returned.0)
      (ap returns_old_or_all_new e ∙ all_old_returned.1)
reads_needed kind o (has_an_expression e f) = update_of kind o e (ground (arith, f))
reads_needed kind o (returns_attributes e f) =
    update_of kind o e (ground (arith, attributes_returned o.return_values f))
reads_needed kind o (updates_by_old_value e before after u split f) = update_of kind o e (
    ground (
      arith,
      ap any_reads_old split ∙ update_at before after u (reads_from u.action u.has_value f),
    ))

needed_reads :
    (kind : WriteOperationKind) (o : WriteOperationOptions)
    → does_write_need_read_before_write kind o ≡ true
    → ReadsItem kind o
unfolding does_write_need_read_before_write
needed_reads put_item o h = put_reads put_item o h
needed_reads delete_item o h = put_reads delete_item o h
needed_reads update_item o h = update_reads o h

-- ShouldUseKeyRouteAffinity selects a write exactly when the mode is AnyWrite, or it is ReadBeforeWrite
-- and the write has a condition expression or expected values, returns the whole old item, or is an
-- update that has an update expression, returns the updated attributes' old values or the whole new
-- item, or has among its attribute updates an ADD, or a DELETE with a value.
pub should_use_key_route_affinity_iff :
    (mode : KeyRouteAffinityMode) (kind : WriteOperationKind) (o : WriteOperationOptions)
    → (should_use_key_route_affinity mode kind o ≡ true)
      ↔ ((mode ≡ any_write) ⊎ ((mode ≡ read_before_write) × ReadsItem kind o))
unfolding should_use_key_route_affinity
should_use_key_route_affinity_iff any_write kind o = ((λ h. inl refl), (λ h. refl))
should_use_key_route_affinity_iff read_before_write kind o =
    ((λ h. inr (refl, needed_reads kind o h)), by_mode)
  where
    by_mode :
        (read_before_write ≡ any_write)
          ⊎ ((read_before_write ≡ read_before_write) × ReadsItem kind o)
        → does_write_need_read_before_write kind o ≡ true
    by_mode (inl e) = cc
    by_mode (inr (e, r)) = reads_needed kind o r
should_use_key_route_affinity_iff no_affinity kind o = ((λ h. cc), none)
  where
    none :
        (no_affinity ≡ any_write) ⊎ ((no_affinity ≡ read_before_write) × ReadsItem kind o)
        → false ≡ true
    none (inl e) = cc
    none (inr (e, r)) = cc
