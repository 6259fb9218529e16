-- ===== src/Routing/NodeType/Laws.antt =====
-- Which nodes pass packages/ddc/src/routing/NodeTypeStrategy.ts, and in what order.
use mathlib.Core.List.{Perm}
use cere_ddc_sdk_js.Common.{◌≤◌, ◌≡◌, Bool, true, List, arith, keep, All, All-keep_self}
use cere_ddc_sdk_js.Common.Sort.{
  IsOrdered, Lex, sort_by-perm, sort_by-IsOrdered, All-sort_by, by_key-IsConsistent,
  IsOrdered-trivial, IsOrdered-imp,
}
use cere_ddc_sdk_js.Routing.{Operation, RouterNode}
use cere_ddc_sdk_js.Routing.BaseStrategy
use cere_ddc_sdk_js.Routing.NodeType.{marshal_nodes, by_priority, is_applicable, priority_of}

-- In the order of priorities.
abbrev pub NoLater : Operation → RouterNode → RouterNode → Type 0
NoLater operation a b = priority_of operation a ≤ priority_of operation b

abbrev pub Trivial : RouterNode → RouterNode → Type 0
Trivial a b = Unit {0}

module _ (ssl_required : Bool) (operation : Operation) (all_nodes : List RouterNode) where
  pub marshal_nodes-perm :
      Perm
        (marshal_nodes ssl_required operation all_nodes)
        (keep (is_applicable operation) (BaseStrategy.marshal_nodes ssl_required all_nodes))
  unfolding marshal_nodes
  marshal_nodes-perm = sort_by-perm (by_priority operation) _

  pub marshal_nodes-All-is_applicable :
      All
        (λ node. is_applicable operation node ≡ true)
        (marshal_nodes ssl_required operation all_nodes)
  unfolding marshal_nodes
  marshal_nodes-All-is_applicable =
      All-sort_by (by_priority operation) _ _ (All-keep_self (is_applicable operation) _)

  pub marshal_nodes-IsOrdered :
      IsOrdered (NoLater operation) (marshal_nodes ssl_required operation all_nodes)
  unfolding marshal_nodes
  marshal_nodes-IsOrdered =
      IsOrdered-imp (Lex (by_priority operation) Trivial) (NoLater operation) _
        (λ a b l. ground (arith, l.0))
        (sort_by-IsOrdered (by_priority operation) (by_key-IsConsistent (priority_of operation))
          Trivial _ (IsOrdered-trivial _ _ (λ a b. tt)))
