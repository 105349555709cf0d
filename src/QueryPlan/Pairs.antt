-- ===== src/QueryPlan/Pairs.antt =====
-- Lists of two nodes with different hosts, for the examples.
use alternator_client_cpp.Base.{
  ◌≡◌, ◌≢◌, sym, ◌∙◌, ap, arith, true, false, [], ◌∷◌, Bool-cases, ◌⊎◌, inl, inr, ◌==◌, eq_iff,
  subst,
}
use alternator_client_cpp.Base.Counts.{contains, count, Distinct, SameItems}
use alternator_client_cpp.Url.{Url, url_Eq, to_string, is_empty_url}
use alternator_client_cpp.QueryPlan.Sorting.{IsFaithful}
use alternator_client_cpp.QueryPlan.Order.{HaveHosts}

module _ (u v : Url) where
  one_of : (a : Url) → contains a (u ∷ v ∷ []) ≡ true → (u ≡ a) ⊎ (v ≡ a)
  unfolding contains
  one_of a h = elim (Bool-cases (u == a)) [
    | inl e ↦ inl ((eq_iff u a).0 e)
    | inr e ↦ inr ((eq_iff v a).0 (ground (arith, h, e)))
  ]

  pub pair-IsFaithful : to_string u ≢ to_string v → IsFaithful (u ∷ v ∷ [])
  pair-IsFaithful d a b ha hb e = elim (one_of a ha) [
    | inl p ↦ elim (one_of b hb) [
      | inl q ↦ sym p ∙ q
      | inr q ↦ elim (d (ap to_string p ∙ (e ∙ ap to_string (sym q)))) [ ]
    ]
    | inr p ↦ elim (one_of b hb) [
      | inl q ↦ elim (d (ap to_string q ∙ (sym e ∙ ap to_string (sym p)))) [ ]
      | inr q ↦ sym p ∙ q
    ]
  ]

  pub pair-HaveHosts : is_empty_url u ≡ false → is_empty_url v ≡ false → HaveHosts (u ∷ v ∷ [])
  pair-HaveHosts hu hv a h = elim (one_of a h) [
    | inl p ↦ subst (λ w. is_empty_url w ≡ false) p hu
    | inr p ↦ subst (λ w. is_empty_url w ≡ false) p hv
  ]

  pub pair-Distinct : (u == v) ≡ false → Distinct (u ∷ v ∷ [])
  unfolding count
  pair-Distinct d a = ground (arith, eq_iff u a, eq_iff v a, eq_iff u v)

  pub swapped : SameItems (u ∷ v ∷ []) (v ∷ u ∷ [])
  unfolding count
  swapped a = omega arith

  pub same_set : (a : Url) → contains a (u ∷ v ∷ []) ≡ contains a (v ∷ u ∷ v ∷ [])
  unfolding contains
  same_set a = ground arith
