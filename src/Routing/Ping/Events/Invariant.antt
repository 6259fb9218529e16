-- ===== src/Routing/Ping/Events/Invariant.antt =====
-- What always holds of the map of packages/ddc/src/routing/PingStrategy.ts.
use cere_ddc_sdk_js.Common.{
  ◌≡◌, ◌≢◌, refl, none, List, [], ◌∷◌, String, inl, inr, string_eq, Option-cases, All, All-insert,
  lookup,
}
use cere_ddc_sdk_js.Routing.{RouterNode}
use cere_ddc_sdk_js.Routing.Ping.{
  resolved, rejected, PingRecord, NodesMap, enqueue_ping, enqueue_pings,
}
use cere_ddc_sdk_js.Routing.Ping.Events.{measured, failed}

-- An entry stands under its node's URL; a ping that was resolved has a latency, one that was
-- rejected has none.
pub record IsSound (entry : String × PingRecord) : Type 0 where
  pub keyed : entry.0 ≡ entry.1.node.http_url
  pub measured : entry.1.is_done ≡ resolved → entry.1.latency ≢ none
  pub failed : entry.1.is_done ≡ rejected → entry.1.latency ≡ none

abbrev pub IsWellFormed : NodesMap → Type 0
IsWellFormed = All IsSound

enqueue_ping-IsWellFormed :
    (node : RouterNode) (m : NodesMap) → IsWellFormed m → IsWellFormed (enqueue_ping node m).0
unfolding enqueue_ping
enqueue_ping-IsWellFormed node m h = elim (Option-cases (lookup node.http_url m)) [
  | inr (r, e) ↦ rw (e, enqueue_ping) h
  | inl e ↦
      rw (e, enqueue_ping)
        (All-insert IsSound node.http_url _ m
          (λ j same. record { keyed = same; measured = λ g. cc; failed = λ g. refl }) h)
]

pub enqueue_pings-IsWellFormed :
    (nodes : List RouterNode) (m : NodesMap)
    → IsWellFormed m
    → IsWellFormed (enqueue_pings nodes m).0
unfolding enqueue_pings
enqueue_pings-IsWellFormed [] m h = h
enqueue_pings-IsWellFormed (node ∷ nodes) m h =
    enqueue_pings-IsWellFormed nodes (enqueue_ping node m).0 (enqueue_ping-IsWellFormed node m h)
