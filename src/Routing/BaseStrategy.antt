-- ===== src/Routing/BaseStrategy.antt =====
-- packages/ddc/src/routing/BaseStrategy.web.ts, with the page's protocol as an argument.
use cere_ddc_sdk_js.Common.{Bool, List, if◌then◌else◌, keep}
use cere_ddc_sdk_js.Routing.{RouterNode}

-- `ssl_required` is `isSSLRequired()`: whether the page came over https.
unfoldable pub marshal_nodes : Bool → List RouterNode → List RouterNode
marshal_nodes ssl_required all_nodes =
    if ssl_required then keep (λ node. node.ssl) all_nodes else all_nodes
