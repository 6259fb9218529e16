-- ===== src/Routing/NodeType.antt =====
-- packages/ddc/src/routing/NodeTypeStrategy.ts: the modes that an operation may use, and their
-- priorities (a lower number goes first).
pub mod Laws
use cere_ddc_sdk_js.Common.{
  ℕ, Bool, true, false, Option, none, some, List, [], ◌∷◌, or_else, or_option, compare, Ordering,
  keep, is_defined,
}
use cere_ddc_sdk_js.Common.Sort.{sort_by}
use cere_ddc_sdk_js.Routing.{
  Operation, read_dag_node, store_dag_node, read_piece, store_piece, store_cns_record,
  read_cns_record, Mode, full, storage, cache, RouterNode,
}
use cere_ddc_sdk_js.Routing.BaseStrategy

-- `priorityMap[operation][mode]`
unfoldable pub priority_map : Operation → Mode → Option ℕ
priority_map read_dag_node full = some 1
priority_map read_dag_node cache = some 1
priority_map read_dag_node storage = some 2
priority_map store_dag_node full = some 1
priority_map store_dag_node storage = some 2
priority_map store_dag_node cache = none
priority_map read_piece full = some 1
priority_map read_piece cache = some 1
priority_map read_piece storage = some 2
priority_map store_piece full = some 1
priority_map store_piece storage = some 2
priority_map store_piece cache = none
priority_map read_cns_record full = some 1
priority_map read_cns_record cache = some 1
priority_map read_cns_record storage = some 2
priority_map store_cns_record full = some 1
priority_map store_cns_record storage = some 2
priority_map store_cns_record cache = none

-- `a.priority ?? operationPriorityMap[a.mode] ?? 0`
unfoldable pub priority_of : Operation → RouterNode → ℕ
priority_of operation a = or_else (or_option a.priority (priority_map operation a.mode)) 0

abbrev pub by_priority : Operation → RouterNode → RouterNode → Ordering
by_priority operation a b = compare (priority_of operation a) (priority_of operation b)

abbrev pub is_applicable : Operation → RouterNode → Bool
is_applicable operation node = is_defined (priority_map operation node.mode)

unfoldable pub marshal_nodes : Bool → Operation → List RouterNode → List RouterNode
marshal_nodes ssl_required operation all_nodes =
    sort_by (by_priority operation)
      (keep (is_applicable operation) (BaseStrategy.marshal_nodes ssl_required all_nodes))

-- `selectNode`: the first node of the list.
unfoldable pub select_node : List RouterNode → Option RouterNode
select_node [] = none
select_node (node ∷ _) = some node
