-- ===== src/Policy/Compiler.antt =====
-- src/application/policy-compiler.ts, `PolicyCompiler.compile`, and `firewallRulesFor` of
-- src/infrastructure/pg-policy-enforcer.ts. The checksum's hash is a parameter. The plans of the three
-- platforms, which nothing calls, are left out.
use bapc_vpn_and_digital_sec.Base.{
  ℕ, String, Bool, true, false, not, ◌||◌, List, [], ◌∷◌, string_eq, if◌then◌else◌, ltb, any, all,
  filter, contains, sort, ◌<+>◌,
}
use bapc_vpn_and_digital_sec.Json.{
  Json, Items, nil, cons, str, arr, obj, end, field, strings, numbers,
}
use bapc_vpn_and_digital_sec.Domain.{NetworkPolicy, PolicyAction, allow, deny, isolate, validation}
use bapc_vpn_and_digital_sec.Store.Monad.{Result, ok, err}

abbrev pub zones : List String
zones =
    "ZONE_PROD_DATA" ∷ "ZONE_PROD_APP" ∷ "ZONE_STAGING" ∷ "ZONE_DEV" ∷ "ZONE_ADMIN_MGMT"
    ∷ "ZONE_FORENSIC_ISOLATION" ∷ []

pub record PolicyIrRule : Type 0 where
  pub id : String
  pub source : List String
  pub destination : List String
  pub protocols : List String
  pub ports : List ℕ
  pub action : PolicyAction
  pub log : Bool

pub record PolicyIrDocument : Type 0 where
  pub version : ℕ
  pub generated_at : ℕ
  pub checksum : String
  pub rules : List PolicyIrRule

unfoldable pub zones_ok : NetworkPolicy → Bool
zones_ok p =
    if all (contains zones) p.source_zones then all (contains zones) p.destination_zones else false

abbrev bad_port : ℕ → Bool
bad_port x = ltb x 1 || ltb 65535 x

unfoldable pub ports_ok : NetworkPolicy → Bool
ports_ok p = not (any bad_port p.destination_ports)

unfoldable pub compile_rule : NetworkPolicy → Result PolicyIrRule
compile_rule p =
    if not (zones_ok p)
    then err (validation ("invalid zone in " <+> p.name))
    else if not (ports_ok p)
    then err (validation ("invalid port in " <+> p.name))
    else ok (record {
      id = p.id;
      source = p.source_zones;
      destination = p.destination_zones;
      protocols = p.protocols;
      ports = p.destination_ports;
      action = p.action;
      log = true;
    })

abbrev pub cons_ok : Result PolicyIrRule → Result (List PolicyIrRule) → Result (List PolicyIrRule)
cons_ok (err e) rest = err e
cons_ok (ok r) (err e) = err e
cons_ok (ok r) (ok rs) = ok (r ∷ rs)

-- the `map` of `compile`: the first rule that throws ends it
unfoldable pub compile_rules : List NetworkPolicy → Result (List PolicyIrRule)
compile_rules [] = ok []
compile_rules (p ∷ ps) = cons_ok (compile_rule p) (compile_rules ps)

abbrev pub document_of :
    (List PolicyIrRule → String) → ℕ → Result (List PolicyIrRule) → Result PolicyIrDocument
document_of checksum now (err e) = err e
document_of checksum now (ok rules) =
    ok (record { version = 1; generated_at = now; checksum = checksum rules; rules = rules })

unfoldable pub compile :
    (List PolicyIrRule → String) → List NetworkPolicy → ℕ → Result PolicyIrDocument
unfolding compile_rules
compile checksum policies now =
    document_of checksum now
      (compile_rules (sort (λ a b. ltb b.priority a.priority) (filter (λ p. p.active) policies)))

-- An action that is not ALLOW is a firewall's DENY.
abbrev firewall_action : PolicyAction → String
firewall_action allow = "ALLOW"
firewall_action deny = "DENY"
firewall_action isolate = "DENY"

abbrev firewall_rule : NetworkPolicy → Json
firewall_rule p = obj (
    field "id" (str p.id) (
      field "action" (str (firewall_action p.action)) (
        field "protocols" (arr (strings p.protocols)) (
          field "ports" (arr (numbers p.destination_ports)) (
            field "sourceZones" (arr (strings p.source_zones))
              (field "destinationZones" (arr (strings p.destination_zones)) end))))))

unfoldable pub firewall_rules_for : List NetworkPolicy → Items
firewall_rules_for [] = nil
firewall_rules_for (p ∷ ps) = cons (firewall_rule p) (firewall_rules_for ps)
