-- ===== src/Routing/Ping/Order.antt =====
-- What packages/ddc/src/routing/PingStrategy.ts returns, and in what order.
use mathlib.Core.List.{Perm}
use mathlib.Core.List.Perm
use cere_ddc_sdk_js.Common.{ℕ, ◌≡◌, ◌≢◌, refl, Bool, true, false, List, Ordering, arith, keep}
use cere_ddc_sdk_js.Common.Sort.{
  keep-perm, IsOrdered, Lex, IsConsistent, sort_by-perm, sort_by-IsOrdered,
}
use cere_ddc_sdk_js.Routing.{Operation, RouterNode}
use cere_ddc_sdk_js.Routing.BaseStrategy
use cere_ddc_sdk_js.Routing.NodeType
use cere_ddc_sdk_js.Routing.NodeType.{is_applicable}
use cere_ddc_sdk_js.Routing.NodeType.Laws.{NoLater}
use cere_ddc_sdk_js.Routing.Shuffle.{shuffle, shuffle-perm}
use cere_ddc_sdk_js.Routing.Ping.{Level, finite, infinity, compare_level, by_level, NodesMap}
use cere_ddc_sdk_js.Routing.Ping.Events.{PingEvent, marshal_nodes}

compare_level-flip :
    (a b : Level) → compare_level a b ≡ Ordering.gt → compare_level b a ≡ Ordering.lt
unfolding compare_level
compare_level-flip (finite a) (finite b) e = ground arith
compare_level-flip (finite a) infinity e = cc
compare_level-flip infinity (finite b) e = refl
compare_level-flip infinity infinity e = cc

compare_level_trans :
    (a b c : Level)
    → compare_level a b ≢ Ordering.gt
    → compare_level b c ≢ Ordering.gt
    → compare_level a c ≢ Ordering.gt
unfolding compare_level
compare_level_trans (finite a) (finite b) (finite c) h k e = ground arith
compare_level_trans (finite a) (finite b) infinity h k e = cc
compare_level_trans (finite a) infinity (finite c) h k e = k refl
compare_level_trans (finite a) infinity infinity h k e = cc
compare_level_trans infinity (finite b) c h k e = h refl
compare_level_trans infinity infinity (finite c) h k e = k refl
compare_level_trans infinity infinity infinity h k e = cc

by_level-IsConsistent : (nodes_map : NodesMap) → IsConsistent (by_level nodes_map)
by_level-IsConsistent nodes_map = record {
  flip = λ a b. compare_level-flip _ _;
  trans = λ a b c. compare_level_trans _ _ _;
}

marshal_nodes-shuffle :
    (ssl_required : Bool) (draws : List ℕ) (all_nodes : List RouterNode)
    → Perm
        (BaseStrategy.marshal_nodes ssl_required (shuffle draws all_nodes))
        (BaseStrategy.marshal_nodes ssl_required all_nodes)
unfolding BaseStrategy.marshal_nodes
marshal_nodes-shuffle true draws all_nodes = keep-perm _ (shuffle-perm draws all_nodes)
marshal_nodes-shuffle false draws all_nodes = shuffle-perm draws all_nodes

module _ (ssl_required : Bool) (operation : Operation) (draws : List ℕ) (events : List PingEvent)
    (all_nodes : List RouterNode) (nodes_map : NodesMap) where
  abbrev after_wait : NodesMap
  after_wait = (marshal_nodes ssl_required operation draws events all_nodes nodes_map).1

  abbrev returned : List RouterNode
  returned = (marshal_nodes ssl_required operation draws events all_nodes nodes_map).0

  -- Whatever the shuffle and the pings, the nodes stand in the order of their latency groups as
  -- they are after the wait, nodes with no latency (or one of 0) last, and in a group by priority.
  pub marshal_nodes-IsOrdered : IsOrdered (Lex (by_level after_wait) (NoLater operation)) returned
  unfolding marshal_nodes
  marshal_nodes-IsOrdered =
      sort_by-IsOrdered (by_level after_wait) (by_level-IsConsistent after_wait) (NoLater operation)
        _ (NodeType.Laws.marshal_nodes-IsOrdered ssl_required operation _)

  -- The strategy returns each node of the input that serves the operation (and has SSL, where the
  -- page needs it) as often as the input has it, and no other.
  pub marshal_nodes-perm :
      Perm returned
        (keep (is_applicable operation) (BaseStrategy.marshal_nodes ssl_required all_nodes))
  unfolding marshal_nodes
  marshal_nodes-perm = Perm.trans (sort_by-perm (by_level after_wait) _) (
      Perm.trans (NodeType.Laws.marshal_nodes-perm ssl_required operation _)
        (keep-perm (is_applicable operation) (marshal_nodes-shuffle ssl_required draws all_nodes)))
