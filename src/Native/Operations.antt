-- ===== src/Native/Operations.antt =====
-- The operations of `LinuxPlatformAdapter` (native/linux/adapter.ts) that look for their programs, in one type.
use bapc_vpn_and_digital_sec.Base.{ℕ, String, Bool, List, [], ◌∷◌, Option}
use bapc_vpn_and_digital_sec.Store.{Route}
use bapc_vpn_and_digital_sec.Native.{Peer, WireGuardInput, FirewallInput, Act, ◌>>◌, return}
use bapc_vpn_and_digital_sec.Native.Linux.{
  Host, apply_wire_guard, apply_peers, rotate_private_key, apply_firewall, rollback_firewall,
  set_kill_switch, set_dns, isolate, restore, read_routes, replace_routes,
  clear_transient_credentials,
}

-- the operations of the adapter that look for their programs with `requireBinary`; `collectPosture`, which
-- takes a failure of `nft` for a firewall that is off, is none of them
pub data Operation : Type 0 where
  wire_guard : WireGuardInput → Operation
  peers : List Peer → Operation
  private_key : String → Operation
  firewall : FirewallInput → Operation
  roll_back : String → Operation
  kill_switch : Bool → Operation
  dns : List String → Operation
  isolation : String → Operation
  restoration : Operation
  routes : Operation
  new_routes : List Route → Operation
  credentials : Operation

-- the programs that an operation looks for before anything else, in order
abbrev pub binaries_of : Operation → List String
binaries_of (wire_guard input) = "wg" ∷ "ip" ∷ []
binaries_of (peers ps) = "wg" ∷ []
binaries_of (private_key reference) = "wg" ∷ []
binaries_of (firewall input) = "nft" ∷ []
binaries_of (roll_back id) = "nft" ∷ []
binaries_of (kill_switch enabled) = "nft" ∷ []
binaries_of (dns servers) = "resolvectl" ∷ []
binaries_of (isolation reason) = "nft" ∷ []
binaries_of restoration = "nft" ∷ []
binaries_of routes = "ip" ∷ []
binaries_of (new_routes rs) = "ip" ∷ []
binaries_of credentials = "ip" ∷ []

module _ {P : Type 0} (host : Host P) (lower : String → String)
    (number_of : String → Option ℕ) where
  abbrev pub operate : Operation → Act P (Unit {0})
  operate (wire_guard input) = apply_wire_guard host input
  operate (peers ps) = apply_peers host ps
  operate (private_key reference) = rotate_private_key host reference
  operate (firewall input) = apply_firewall host lower input
  operate (roll_back id) = rollback_firewall host id
  operate (kill_switch enabled) = set_kill_switch host enabled
  operate (dns servers) = set_dns host servers
  operate (isolation reason) = isolate host reason
  operate restoration = restore host
  operate routes = read_routes host number_of >> return tt
  operate (new_routes rs) = replace_routes host rs
  operate credentials = clear_transient_credentials host
