-- ===== src/QueryPlan/Removal.antt =====
-- src/query_plan.cpp, PopNode and PickAndRemove: each takes one node away and keeps the others.
use alternator_client_cpp.Base.{
  ℕ, zero, suc, ◌+◌, ◌<◌, ◌≡◌, refl, sym, ◌∙◌, ap, true, false, List, [], ◌∷◌, arith, if◌then◌else◌,
  ◌==◌, length, get_or, set, length-set, Option, none, some, Bool-cases, inl, inr,
}
use alternator_client_cpp.Base.Counts.{contains, count, erase, count-erase, length-erase}
use alternator_client_cpp.Url.{Url, url_Eq, is_empty_url, empty_url}
use alternator_client_cpp.QueryPlan.{pop_preferred, back_or, pop_back, swap_remove}

-- `rest` is `nodes` without one `u`.
pub record Removes (u : Url) (nodes rest : List Url) : Type 0 where
  pub counted : (b : Url) → count b nodes ≡ (if u == b then 1 else 0) + count b rest
  pub shorter : length nodes ≡ suc (length rest)

pub Removes-front : (u : Url) (us : List Url) → Removes u (u ∷ us) us
unfolding count
Removes-front u us = record { counted = λ b. refl; shorter = refl }

pub Removes-erase : (u : Url) (us : List Url) → contains u us ≡ true → Removes u us (erase u us)
Removes-erase u us h = record { counted = λ b. count-erase u b us h; shorter = length-erase u us h }

count-set :
    (b v d : Url) (i : ℕ) (us : List Url)
    → i < length us
    → count b (set us i v) + (if get_or us i d == b then 1 else 0)
      ≡ count b us + (if v == b then 1 else 0)
unfolding count
count-set b v d i [] h = elim h [ ]
count-set b v d zero (u ∷ us) h = omega arith
count-set b v d (suc i) (u ∷ us) h = omega (arith, count-set b v d i us (omega arith))

count-pop_back :
    (b d u : Url) (us : List Url)
    → count b (u ∷ us) ≡ (if back_or d (u ∷ us) == b then 1 else 0) + count b (pop_back (u ∷ us))
unfolding count back_or pop_back
count-pop_back b d u [] = omega arith
count-pop_back b d u (v ∷ vs) = omega (arith, count-pop_back b u v vs)

length-pop_back : (u : Url) (us : List Url) → length (pop_back (u ∷ us)) ≡ length us
unfolding pop_back
length-pop_back u [] = refl
length-pop_back u (v ∷ vs) = ap suc (length-pop_back v vs)

-- Writing the last item anywhere leaves it the last.
back_or-set :
    (d e u : Url) (i : ℕ) (us : List Url)
    → back_or d (set (u ∷ us) i (back_or e (u ∷ us))) ≡ back_or e (u ∷ us)
unfolding back_or
back_or-set d e u zero [] = refl
back_or-set d e u (suc i) [] = refl
back_or-set d e u zero (v ∷ vs) = refl
back_or-set d e u (suc i) (v ∷ vs) = back_or-set u u v i vs

swapped_count :
    (b u : Url) (i : ℕ) (us written : List Url)
    → i < suc (length us)
    → written ≡ set (u ∷ us) i (back_or empty_url (u ∷ us))
    → count b (u ∷ us)
      ≡ (if get_or (u ∷ us) i empty_url == b then 1 else 0) + count b (pop_back written)
swapped_count b u i us [] h e = absurd (omega (arith, ap length e, length-set (u ∷ us) i _))
swapped_count b u i us (w ∷ ws) h e = omega (
  arith,
  count-set b (back_or empty_url (u ∷ us)) empty_url i (u ∷ us) h,
  ap (λ l. count b l) e,
  count-pop_back b empty_url w ws,
  ap {B = ℕ} (λ v. if v == b then 1 else 0)
      (ap (λ l. back_or empty_url l) e ∙ back_or-set empty_url empty_url u i us),
)

swapped_length :
    (u : Url) (i : ℕ) (us written : List Url)
    → written ≡ set (u ∷ us) i (back_or empty_url (u ∷ us))
    → length (pop_back written) ≡ length us
swapped_length u i us [] e = absurd (omega (arith, ap length e, length-set (u ∷ us) i _))
swapped_length u i us (w ∷ ws) e =
    omega (arith, ap length e, length-set (u ∷ us) i _, length-pop_back w ws)

pub Removes-swap_remove :
    (i : ℕ) (u : Url) (us : List Url)
    → i < suc (length us)
    → Removes (get_or (u ∷ us) i empty_url) (u ∷ us) (swap_remove i (u ∷ us))
unfolding swap_remove
Removes-swap_remove i u us h = record {
  counted = λ b. swapped_count b u i us _ h refl;
  shorter = ap suc (sym (swapped_length u i us _ refl));
}

-- What the loop over the preferred nodes comes to.
abbrev pub PopsPreferred : List Url → Option Url × List Url × List Url → Type 0
PopsPreferred nodes (none, preferred, rest) = rest ≡ nodes
PopsPreferred nodes (some u, preferred, rest) = Removes u nodes rest × (is_empty_url u ≡ false)

pub pop_preferred_cases :
    (preferred nodes : List Url) → PopsPreferred nodes (pop_preferred preferred nodes)
unfolding pop_preferred
pop_preferred_cases [] nodes = refl
pop_preferred_cases (p ∷ ps) nodes = elim (Bool-cases (is_empty_url p)) [
  | inl none_there ↦ rw none_there (pop_preferred_cases ps nodes)
  | inr e ↦ elim (Bool-cases (contains p nodes)) [
    | inl there ↦ rw (e, there) (Removes-erase p nodes there, e)
    | inr gone ↦ rw (e, gone) (pop_preferred_cases ps nodes)
  ]
]
