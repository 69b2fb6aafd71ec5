-- ===== src/Mesh.antt =====
-- The mesh topology: which nodes see each other, through which relay, under which addresses. The
-- modules below follow src/application/relay-routing.ts, services/mesh-controller/controller.ts and
-- services/relay-fleet/pg-relay-store.ts.
pub mod Routing
pub mod Relays
pub mod Topology
pub mod Addresses
