-- ===== src/Mesh/Topology.antt =====
-- services/mesh-controller/controller.ts (`MeshController`),
-- services/mesh-controller/pg-mesh-command-sink.ts (`PgMeshCommandSink`) and
-- services/mesh-controller/mesh-controller-peer-distributor.ts (`MeshControllerPeerDistributor`). The
-- hash of a text and `canonicalJson` are one parameter, `hash`, on the value that is hashed.
pub mod Laws
use bapc_vpn_and_digital_sec.Base.{
  ℕ, String, Bool, true, false, not, ◌&&◌, ◌||◌, List, [], ◌∷◌, ◌++◌, Option, none, some, ◌==◌,
  string_eq, if◌then◌else◌, filter, length, is_empty, ◌<+>◌, map,
}
use bapc_vpn_and_digital_sec.Json.{
  Json, Items, nil, cons, num, str, arr, obj, Fields, end, field, strings,
}
use bapc_vpn_and_digital_sec.Domain.{MeshNode, unassigned_region, admin_zone, forensic_zone}
use bapc_vpn_and_digital_sec.Store.{Store}
use bapc_vpn_and_digital_sec.Store.Monad.{M, ◌>>=◌, ◌>>◌, return, gets, then_run, for_each, ok, err}
use bapc_vpn_and_digital_sec.Store.Commands.{enqueue}
use bapc_vpn_and_digital_sec.Mesh.Routing.{RelayHealth, PathCandidate, PathKind, select}
use bapc_vpn_and_digital_sec.Mesh.Relays.{relay_candidates}

pub data PeerPath : Type 0 where
  direct relay : PeerPath

pub record MeshPeerPlan : Type 0 where
  pub node_id : String
  pub public_key : String
  pub endpoint : Option String
  pub allowed_ips : List String
  pub keepalive_seconds : ℕ
  pub path : PeerPath

-- Zone `a` may see a peer in zone `b`.
unfoldable pub allowed : String → String → Bool
allowed a b =
    if a == forensic_zone || b == forensic_zone
    then a == admin_zone || b == admin_zone
    else not (a == "ZONE_DEV" && b == "ZONE_PROD_DATA")

-- `p.endpoint?{endpoint}:{}`
abbrev endpoint_fields : Option String → Fields
endpoint_fields none = end
endpoint_fields (some e) = if is_empty e then end else field "endpoint" (str e) end

unfoldable pub peer_json : MeshPeerPlan → Json
peer_json p = obj (
    field "publicKey" (str p.public_key) (
      field "allowedIps" (arr (strings p.allowed_ips))
        (field "keepaliveSeconds" (num p.keepalive_seconds) (endpoint_fields p.endpoint))))

unfoldable pub apply_peers_payload : List MeshPeerPlan → Items
unfolding peer_json
apply_peers_payload [] = nil
apply_peers_payload (p ∷ ps) = cons (peer_json p) (apply_peers_payload ps)

abbrev region_of : Option String → String
region_of none = unassigned_region
region_of (some r) = r

-- `best&&best.kind!=="DIRECT"?best.endpoint:undefined`
abbrev endpoint_of_best : List PathCandidate → Option String
endpoint_of_best [] = none
endpoint_of_best (c ∷ _) = elim c.kind [ PathKind.direct ↦ none | _ ↦ some c.endpoint ]

abbrev in_region : String → RelayHealth → Bool
in_region region c = c.region == region

unfoldable pub select_relay_endpoint : String → Store → Option String
select_relay_endpoint region s =
    if region == unassigned_region
    then endpoint_of_best (select none [] (relay_candidates s) s.now)
    else endpoint_of_best (
        select none (filter (in_region region) (relay_candidates s))
          (filter (λ c. not (in_region region c)) (relay_candidates s)) s.now)

-- `resolvedRelayEndpoint?…`: an empty endpoint counts as none
abbrev usable : Option String → Option String
usable none = none
usable (some e) = if is_empty e then none else some e

abbrev path_for : Option String → PeerPath
path_for none = direct
path_for (some e) = relay

unfoldable pub peer_plan : Option String → MeshNode → MeshPeerPlan
peer_plan endpoint p = record {
  node_id = p.id;
  public_key = p.wire_guard_public_key;
  endpoint = usable endpoint;
  allowed_ips = (p.internal_ipv4 <+> "/32") ∷ (p.internal_ipv6 <+> "/128") ∷ [];
  keepalive_seconds = 25;
  path = path_for (usable endpoint);
}

abbrev pub sees : MeshNode → MeshNode → Bool
sees node p = p.active && not (p.id == node.id) && allowed node.zone p.zone

-- the chain of `filter` and `map` in `planFor`
unfoldable pub plans : Option String → MeshNode → List MeshNode → List MeshPeerPlan
unfolding peer_plan
plans endpoint node [] = []
plans endpoint node (p ∷ ps) =
    if sees node p then peer_plan endpoint p ∷ plans endpoint node ps else plans endpoint node ps

abbrev resolve : Option String → MeshNode → Store → Option String
resolve none node s = select_relay_endpoint (region_of node.region) s
resolve (some e) node s = some e

unfoldable pub plan_for : MeshNode → List MeshNode → Option String → Store → List MeshPeerPlan
plan_for node all relay_endpoint s = plans (resolve relay_endpoint node s) node all

-- `PgMeshCommandSink.configure`
unfoldable pub configure_node : MeshNode → List MeshPeerPlan → M (Unit {0})
configure_node node peers =
    enqueue node.id "APPLY_PEERS" (obj (field "peers" (arr (apply_peers_payload peers)) end)) 100

-- `PgMeshCommandSink.sever`, which `MeshController.quarantine` calls
unfoldable pub sever : String → M (Unit {0})
sever node_id =
    enqueue node_id "QUARANTINE" (obj (field "reason" (str "mesh topology quarantine") end)) 200

module _ (hash : Json → String) where
  unfoldable pub topology_hash : List MeshPeerPlan → String
  topology_hash peers = hash (arr (apply_peers_payload peers))

  pub record Reconciled : Type 0 where
    pub node_id : String
    pub peer_count : ℕ
    pub hash_sent : String

  unfoldable pub reconcile : MeshNode → List MeshNode → Option String → M Reconciled
  reconcile node all relay_endpoint = do
    peers ← gets (plan_for node all relay_endpoint)
    configure_node node peers
    return
        (record { node_id = node.id; peer_count = length peers; hash_sent = topology_hash peers })

  -- `MeshControllerPeerDistributor.configure`: every peer that was there learns the new set.
  unfoldable pub distribute : MeshNode → List MeshNode → M (Unit {0})
  distribute node existing =
      for_each existing (λ p. do reconcile p (existing ++ node ∷ []) none; return tt)
