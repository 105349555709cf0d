-- ===== src/QueryPlan/Drain.antt =====
-- Running a plan to its end, as DrainPlan of src/key_route_affinity.cpp does.
use alternator_client_cpp.Base.{
  ℕ, zero, suc, ◌<◌, ◌≡◌, refl, sym, List, [], ◌∷◌, arith, length, Result, ok, ◌>>=◌,
}
use alternator_client_cpp.Base.Counts.{count, SameItems}
use alternator_client_cpp.Url.{Url, url_Eq, is_empty_url}
use alternator_client_cpp.QueryPlan.{QueryPlan, next, drain, drain_step, drain_plan}
use alternator_client_cpp.QueryPlan.Removal.{Removes}
use alternator_client_cpp.QueryPlan.Next.{IsReady, Takes, nothing, one, next-Takes}

-- The run ends and gives each node as often as the plan holds it.
abbrev pub DrainsTo : List Url → Result (List Url) → Type 0
DrainsTo nodes r = (out : List Url) × (r ≡ ok out) × SameItems out nodes

count_short : (us : List Url) → length us ≡ 0 → (a : Url) → count a us ≡ 0
unfolding count
count_short [] h a = refl
count_short (u ∷ us) h a = absurd (omega arith)

DrainsTo-cons :
    (u : Url) (nodes rest : List Url) (r : Result (List Url))
    → Removes u nodes rest
    → DrainsTo rest r
    → DrainsTo nodes (r >>= λ us. ok (u ∷ us))
unfolding count
DrainsTo-cons u nodes rest r removed (out, e, same) =
    (u ∷ out, rw e, λ a. omega (arith, removed.counted a, same a))

step_DrainsTo :
    (q : QueryPlan) (r : Result (Url × QueryPlan)) (more : QueryPlan → Result (List Url))
    → Takes q r
    → ((p : QueryPlan)
        → IsReady p
        → suc (length p.nodes) ≡ length q.nodes
        → DrainsTo p.nodes (more p))
    → DrainsTo q.nodes (drain_step more r)
unfolding drain_step count is_empty_url
step_DrainsTo q r more (nothing p empty) h = ([], refl, λ a. sym (count_short q.nodes empty a))
step_DrainsTo q r more (one u p removed host ready) h =
    rw host (
      DrainsTo-cons u q.nodes p.nodes (more p) removed (h p ready (omega (arith, removed.shorter))))

drain-DrainsTo :
    (fuel : ℕ) (q : QueryPlan) → IsReady q → length q.nodes < fuel → DrainsTo q.nodes (drain fuel q)
unfolding drain
drain-DrainsTo zero q ready h = absurd (omega arith)
drain-DrainsTo (suc fuel) q ready h =
    step_DrainsTo q (next q) (drain fuel) (next-Takes q ready)
      (λ p ready' size. drain-DrainsTo fuel p ready' (omega arith))

-- A plan of fewer than 2 ^ 31 nodes that all have a host, whatever its order, runs to its end within
-- its fuel and gives each of its nodes as often as the plan holds it, and nothing else.
pub drain_plan_total : (q : QueryPlan) → IsReady q → DrainsTo q.nodes (drain_plan q)
unfolding drain_plan
drain_plan_total q ready = drain-DrainsTo (suc (length q.nodes)) q ready (omega arith)
