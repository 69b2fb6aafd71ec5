-- ===== src/Grpc.antt =====
-- The handlers registerNode and rotatePeerKey of src/api/grpc/server.ts (`buildMeshGrpcServer`), without the
-- transport. The key in a certificate request (`key_of_csr`), the check of a signature (`signed`), the
-- verifier of attestations, the certificate text and the hash of a topology are parameters.
pub mod Stream
use bapc_vpn_and_digital_sec.Base.{
  ℕ, String, Bool, not, ◌||◌, Option, none, some, List, map, if◌then◌else◌, string_eq, is_some,
  includes, is_empty, ◌<+>◌,
}
use bapc_vpn_and_digital_sec.Json.{Json}
use bapc_vpn_and_digital_sec.Domain.{MeshNode, Device, plain}
use bapc_vpn_and_digital_sec.Store.{Store}
use bapc_vpn_and_digital_sec.Store.Monad.{
  M, Result, ok, ◌>>=◌, ◌>>◌, return, gets, modify, throw_if, or_throw,
}
use bapc_vpn_and_digital_sec.Store.Repositories.{
  get_node, get_device, find_by_public_key, list_nodes, save_node,
}
use bapc_vpn_and_digital_sec.Mesh.Addresses.{Addresses, next}
use bapc_vpn_and_digital_sec.Mesh.Topology.{reconcile}
use bapc_vpn_and_digital_sec.Enrollment.{EnrollmentRequest, Enrolled, register}
use bapc_vpn_and_digital_sec.KeyRotation.{rotate}

-- `detectPlatform` on the signature in lower case
unfoldable pub detect_platform : String → String
detect_platform s =
    if includes s "windows"
    then "windows"
    else if includes s "mac" || includes s "darwin"
    then "macos"
    else if includes s "ipados"
    then "ipados"
    else if includes s "ios"
    then "ios"
    else "linux"

pub record RegisterRequest : Type 0 where
  pub hardware_uuid : String
  pub os_signature : String
  pub csr_der : List ℕ
  pub hardware_attestation_quote : List ℕ
  pub wireguard_public_key : String

abbrev of_result : {A : Type 0} → Result A → M A
of_result r s = (r, s)

module _ (hex : ℕ → String) (lower first_eight : String → String)
    (key_of_csr : List ℕ → Result String) (forge : String → String → String → ℕ → ℕ → String)
    (issuer_id : String) (hash : Json → String) (attest : String → List ℕ → String → Bool)
    (ttl : ℕ) where
  -- the request to the enrollment service; `first_eight` is `slice(0,8)`
  unfoldable pub enrollment_request : RegisterRequest → Addresses → String → EnrollmentRequest
  enrollment_request r lease key = record {
    hostname = "node-" <+> first_eight r.hardware_uuid;
    hardware_id = r.hardware_uuid;
    platform = detect_platform (lower r.os_signature);
    os_version = r.os_signature;
    attestation_quote = r.hardware_attestation_quote;
    attestation_public_key = key;
    wire_guard_public_key = r.wireguard_public_key;
    internal_ipv4 = lease.ipv4;
    internal_ipv6 = lease.ipv6;
    zone = "ZONE_PROD_APP";
  }

  unfoldable pub register_node : RegisterRequest → M Enrolled
  register_node r = do
    nodes ← gets list_nodes
    lease ←
        of_result (next hex (map (λ n. n.internal_ipv4) nodes) (map (λ n. n.internal_ipv6) nodes))
    key ← of_result (key_of_csr r.csr_der)
    register forge issuer_id hash attest ttl (enrollment_request r lease key)

-- `device?.publicAttestationKey`, where an empty key counts as none
abbrev identity_key : Option Device → Option String
identity_key none = none
identity_key (some d) = elim d.public_attestation_key [
  | none ↦ none
  | some key ↦ if is_empty key then none else some key
]

abbrev device_of : MeshNode → Store → Option Device
device_of n s = get_device n.device_id s

module _ (signed : String → String → String → List ℕ → Bool) (hash : Json → String) where
  -- the effective epoch
  unfoldable pub rotate_peer_key : String → String → List ℕ → M ℕ
  rotate_peer_key node_id new_public_key signature = do
    found ← gets (get_node node_id)
    node ← or_throw found (plain "node not found")
    device ← gets (device_of node)
    key ←
        or_throw (identity_key device)
          (plain "node has no enrolled identity key on record — cannot verify rotation signature")
    throw_if (not (signed key node_id new_public_key signature))
        (plain "rotation signature does not verify against the node's enrolled identity key")
    existing ← gets (find_by_public_key new_public_key)
    throw_if (is_some existing) (plain "public key already in use")
    epoch ← (λ s. let r = rotate node_id new_public_key s in (ok r.0, r.1))
    let renewed = record node { wire_guard_public_key = new_public_key }
    modify (save_node renewed)
    all_nodes ← gets list_nodes
    reconcile hash renewed all_nodes none
    return epoch
