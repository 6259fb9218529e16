-- ===== src/Routing/Router/Choice.antt =====
-- Which node `getNode` of packages/ddc/src/routing/Router.ts returns.
use mathlib.Core.List.{Perm}
use mathlib.Core.List.Perm
use cere_ddc_sdk_js.Common.{
  inl, inr, Result-cases, All, arith, subst, All-keep, All-keep_self, Bool, true, false, not,
  includes, string_eq, ℕ, ◌≡◌, List, [], ◌∷◌, String, Result, ok, keep,
}
use cere_ddc_sdk_js.Common.Sort.{All-imp, All-perm, IsOrdered, Lex}
use cere_ddc_sdk_js.Routing.{RouterNode, Operation}
use cere_ddc_sdk_js.Routing.BaseStrategy
use cere_ddc_sdk_js.Routing.NodeType.{select_node, is_applicable}
use cere_ddc_sdk_js.Routing.NodeType.Laws.{NoLater}
use cere_ddc_sdk_js.Routing.Strategy.{RoutingError, strategy_nodes}
use cere_ddc_sdk_js.Routing.Ping.{NodesMap, by_level}
use cere_ddc_sdk_js.Routing.Ping.Order.{marshal_nodes-IsOrdered, marshal_nodes-perm}
use cere_ddc_sdk_js.Routing.Router.{
  get_node_id, Surroundings, Router, without, chosen, choose, get_node,
}

-- The nodes that may be returned: not excluded, of a mode that serves the operation, with SSL
-- where the page needs it.
abbrev pub eligible : Bool → Operation → List String → List RouterNode → List RouterNode
eligible ssl_required operation exclude all_nodes =
    keep (is_applicable operation)
      (BaseStrategy.marshal_nodes ssl_required (without exclude all_nodes))

-- The node stands among the candidates, and no candidate comes before it.
pub record IsBest (operation : Operation) (nodes_map : NodesMap) (candidates : List RouterNode)
    (node : RouterNode) : Type 0 where
  pub rest : List RouterNode
  pub listed : Perm (node ∷ rest) candidates
  pub first : All (Lex (by_level nodes_map) (NoLater operation) node) rest

select-IsBest :
    (operation : Operation) (nodes_map : NodesMap) (candidates sorted : List RouterNode)
    {node : RouterNode}
    → Perm sorted candidates
    → IsOrdered (Lex (by_level nodes_map) (NoLater operation)) sorted
    → chosen (select_node sorted) ≡ ok node
    → IsBest operation nodes_map candidates node
unfolding select_node
select-IsBest operation nodes_map candidates [] p o e = cc
select-IsBest operation nodes_map candidates (n ∷ rest) {node} p o e =
    let same : n ≡ node = cc in
    subst (IsBest operation nodes_map candidates) same
      (record { rest = rest; listed = p; first = o.0 })

-- The node may serve the operation, and its id is not excluded.
abbrev pub IsAllowed : Operation → List String → RouterNode → Type 0
IsAllowed operation exclude node =
    (is_applicable operation node ≡ true) × (includes exclude (get_node_id node) ≡ false)

IsAllowed-prop :
    (operation : Operation) (exclude : List String) (node : RouterNode)
    → IsProp (IsAllowed operation exclude node)
IsAllowed-prop operation exclude node = hlevel

All-base :
    (P : RouterNode → Type 0) (ssl_required : Bool) (nodes : List RouterNode)
    → All P nodes
    → All P (BaseStrategy.marshal_nodes ssl_required nodes)
unfolding BaseStrategy.marshal_nodes
All-base P true nodes h = All-keep _ P nodes h
All-base P false nodes h = h

All-IsAllowed :
    (ssl_required : Bool) (operation : Operation) (exclude : List String)
    (all_nodes : List RouterNode)
    → All (IsAllowed operation exclude) (eligible ssl_required operation exclude all_nodes)
All-IsAllowed ssl_required operation exclude all_nodes =
    All-imp (λ node. is_applicable operation node ≡ true)
      (λ node. not (includes exclude (get_node_id node)) ≡ true) (IsAllowed operation exclude) _
      (λ node applicable kept. (applicable, ground arith))
      (All-keep_self (is_applicable operation) _)
      (All-keep (is_applicable operation) _ _
        (All-base _ ssl_required _ (All-keep_self _ all_nodes)))

module _ (world : Surroundings) (operation : Operation) (exclude : List String) (m : NodesMap)
    (all_nodes : List RouterNode) where
  choose-IsBest :
      {node : RouterNode}
      → (choose world operation exclude m (ok all_nodes)).1 ≡ ok node
      → IsBest operation
          (choose world operation exclude m (ok all_nodes)).0
          (eligible world.ssl_required operation exclude all_nodes)
          node
  choose-IsBest e =
      select-IsBest operation _ _ _
        (marshal_nodes-perm world.ssl_required operation world.draws world.events
          (without exclude all_nodes) m)
        (marshal_nodes-IsOrdered world.ssl_required operation world.draws world.events
          (without exclude all_nodes) m)
        e

  choose-IsAllowed :
      {node : RouterNode}
      → (choose world operation exclude m (ok all_nodes)).1 ≡ ok node
      → IsAllowed operation exclude node
  choose-IsAllowed e =
      (All-perm (IsAllowed operation exclude) (IsAllowed-prop operation exclude)
        (Perm.symm (choose-IsBest e).listed)
        (All-IsAllowed world.ssl_required operation exclude all_nodes)).0

module _ (world : Surroundings) (operation : Operation) (bucket_id : ℕ) (exclude : List String)
    (router : Router) where
  abbrev after : Router
  after = (get_node world operation bucket_id exclude router).0

  abbrev answer : Result RoutingError RouterNode
  answer = (get_node world operation bucket_id exclude router).1

  abbrev found : Result RoutingError (List RouterNode)
  found = (strategy_nodes world.chain world.later_chain bucket_id router.strategy).1

  -- Where the strategy knows the bucket's nodes, the returned node is one of the nodes that are not
  -- excluded, serve the operation and have SSL where it is needed; and no other of these has a
  -- lower group of latency, nor in the same group a lower priority number.
  pub get_node-IsBest :
      (all_nodes : List RouterNode) {node : RouterNode}
      → found ≡ ok all_nodes
      → answer ≡ ok node
      → IsBest operation after.nodes_map
          (eligible world.ssl_required operation exclude all_nodes)
          node
  unfolding get_node
  get_node-IsBest all_nodes f e =
      rw f (choose-IsBest world operation exclude router.nodes_map all_nodes (rw (f, answer) at e))

  -- An excluded node is never returned, nor one that does not serve the operation.
  pub get_node-IsAllowed : {node : RouterNode} → answer ≡ ok node → IsAllowed operation exclude node
  unfolding get_node
  get_node-IsAllowed e = elim (Result-cases found) [
    | inl (all_nodes, f) ↦
        choose-IsAllowed world operation exclude router.nodes_map all_nodes (rw (f, answer) at e)
    | inr (failure, f) ↦ cc (rw (f, answer, choose) at e)
  ]
