-- ===== src/Mesh/Topology/Laws.antt =====
-- Who sees whom in the mesh (services/mesh-controller/controller.ts).
use bapc_vpn_and_digital_sec.Base.{
  String, ◌≡◌, refl, sym, ◌∙◌, ◌⊎◌, inl, inr, true, false, Option, List, [], ◌∷◌, map, arith, ◌==◌,
  number_eq, string_eq, eq_of_==, Bool-cases, filter, All,
}
use bapc_vpn_and_digital_sec.Domain.{MeshNode, admin_zone, forensic_zone}
use bapc_vpn_and_digital_sec.Mesh.Topology.{allowed, peer_plan, sees, plans}

plans-filter :
    (endpoint : Option String) (node : MeshNode) (all_nodes : List MeshNode)
    → plans endpoint node all_nodes ≡ map (peer_plan endpoint) (filter (sees node) all_nodes)
unfolding plans
plans-filter endpoint node [] = refl
plans-filter endpoint node (p ∷ ps) = ground (arith, plans-filter endpoint node ps)

-- Visibility across the forensic zone is mutual: a zone may see the forensic zone exactly where the
-- forensic zone may see it, and only the administrators' zone does.
pub allowed-forensic :
    (zone : String)
    → (allowed zone forensic_zone ≡ (zone == admin_zone))
      × (allowed forensic_zone zone ≡ (zone == admin_zone))
unfolding allowed
allowed-forensic zone = ground arith

-- what is asked of a row of a node's plan
pub record MaySee (node p : MeshNode) : Type 0 where
  pub active : p.active ≡ true
  pub other : (p.id == node.id) ≡ false
  pub zones : ((node.zone == forensic_zone) ≡ false) ⊎ (p.zone ≡ admin_zone)

zone_seen :
    (zone other : String)
    → allowed zone other ≡ true
    → ((zone == forensic_zone) ≡ false) ⊎ (other ≡ admin_zone)
zone_seen zone other f = elim (Bool-cases (zone == forensic_zone)) [
  | inr e ↦ inl e
  | inl e ↦ inr (
      eq_of_== other admin_zone
        (sym (allowed-forensic other).1 ∙ (rw (eq_of_== zone forensic_zone e) at f)))
]

seen : (node p : MeshNode) → sees node p ≡ true → MaySee node p
seen node p e =
    let f : allowed node.zone p.zone ≡ true = ground arith in
    record { active = ground arith; other = ground arith; zones = zone_seen node.zone p.zone f }

rows_seen :
    (node : MeshNode) (all_nodes : List MeshNode) → All (MaySee node) (filter (sees node) all_nodes)
rows_seen node [] = tt
rows_seen node (p ∷ ps) = elim (Bool-cases (sees node p)) [
  | inl e ↦ rw e (seen node p e, rows_seen node ps)
  | inr e ↦ rw e (rows_seen node ps)
]

-- The rows of a plan are, in order, those of the nodes that the node may see. Each of these is active, is not
-- the node itself, and is in the administrators' zone unless the node is outside the forensic zone.
pub plans-isolated :
    (endpoint : Option String) (node : MeshNode) (all_nodes : List MeshNode)
    → (plans endpoint node all_nodes ≡ map (peer_plan endpoint) (filter (sees node) all_nodes))
      × All (MaySee node) (filter (sees node) all_nodes)
plans-isolated endpoint node all_nodes =
    (plans-filter endpoint node all_nodes, rows_seen node all_nodes)
