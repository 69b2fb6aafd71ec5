-- ===== src/Native/Windows.antt =====
-- native/windows/adapter.ts, `WindowsPlatformAdapter`, over a machine. `stringify`, `parse` and `trim` are
-- those of the language, and `script` is the path of apply.ps1.
use bapc_vpn_and_digital_sec.Base.{
  ℕ, String, Bool, not, List, [], ◌∷◌, ◌++◌, Option, none, some, if◌then◌else◌, is_empty, join_with,
  decimal, ◌<+>◌,
}
use bapc_vpn_and_digital_sec.Json.{
  Json, Items, nil, cons, str, num, bool, arr, obj, Fields, end, field, strings, numbers, get_field,
  is_truthy,
}
use bapc_vpn_and_digital_sec.Store.{Route}
use bapc_vpn_and_digital_sec.Store.Monad.{Result, ok, err}
use bapc_vpn_and_digital_sec.Agent.Production.{read, field_if}
use bapc_vpn_and_digital_sec.Native.{
  Peer, WireGuardInput, FirewallRule, FirewallInput, Machine, Act, then_act, ◌>>=◌, ◌>>◌, return,
  reject_if, ignoring, for_all, number_if, peer_section, peer_lines,
}
use bapc_vpn_and_digital_sec.Native.Keys.{is_key}

-- `new WindowsPlatformAdapter(interfaceAlias, run)` on its machine
pub record WindowsHost (P : Type 0) : Type 0 where
  pub interface_alias : String
  pub script : String
  pub machine : Machine P
  pub stringify : Json → String
  pub parse : String → Result Json
  pub trim : String → String

abbrev port_line : Option ℕ → List String
port_line none = []
port_line (some n) = ("ListenPort = " <+> decimal n) ∷ []

abbrev peer_sections : List Peer → List String
peer_sections [] = []
peer_sections (p ∷ ps) = "" ∷ peer_section p ++ peer_sections ps

unfoldable pub tunnel_lines : WireGuardInput → List String
unfolding peer_section
tunnel_lines input =
    "[Interface]"
      ∷ ("PrivateKey = " <+> input.private_key_reference)
      ∷ ("Address = " <+> join_with ", " input.addresses)
      ∷ port_line (number_if input.listen_port)
    ++ peer_sections input.peers

abbrev rule_json : FirewallRule → Json
rule_json r = obj (
    field "id" (str r.id) (
      field "action" (str r.action) (
        field "protocols" (arr (strings r.protocols)) (
          field "ports" (arr (numbers r.ports)) (
            field "sourceZones" (arr (strings r.source_zones))
              (field "destinationZones" (arr (strings r.destination_zones)) end))))))

abbrev rules_json : List FirewallRule → Items
rules_json [] = nil
rules_json (r ∷ rs) = cons (rule_json r) (rules_json rs)

abbrev firewall_json : FirewallInput → Json
firewall_json input = obj (
    field "commitId" (str input.commit_id)
      (field "defaultAction" (str "DENY") (field "rules" (arr (rules_json input.rules)) end)))

abbrev gateway_text : Option String → Option Json
gateway_text none = none
gateway_text (some g) = some (str g)

abbrev route_json : Route → Json
route_json r = obj (
    field "destination" (str r.destination) (
      field_if "gateway" (gateway_text r.gateway)
        (field "interfaceName" (str r.interface_name) (field "metric" (num r.metric) end))))

abbrev routes_json : List Route → Items
routes_json [] = nil
routes_json (r ∷ rs) = cons (route_json r) (routes_json rs)

abbrev truthy_gateway : Option Json → Option Json
truthy_gateway gateway = if is_truthy gateway then gateway else none

-- one element of the `map` of `readRoutes`
unfoldable pub route_of : Json → Result Json
route_of r = elim (read "destination" r) [
  | err e ↦ err e
  | ok destination ↦ ok (
      obj (
        field_if "destination" destination (
          field_if "interfaceName" (get_field "interfaceName" r) (
            field_if "metric" (get_field "metric" r)
              (field_if "gateway" (truthy_gateway (get_field "gateway" r)) end)))))
]

abbrev cons_result : Result Json → Result (List Json) → Result (List Json)
cons_result (err e) rest = err e
cons_result (ok r) (err e) = err e
cons_result (ok r) (ok rs) = ok (r ∷ rs)

unfoldable pub routes_of : Items → Result (List Json)
unfolding route_of
routes_of nil = ok []
routes_of (cons r rs) = cons_result (route_of r) (routes_of rs)

abbrev only_truthy : Option Json → Items
only_truthy none = nil
only_truthy (some v) = if is_truthy (some v) then cons v nil else nil

-- `Array.isArray(routes)?routes:[routes].filter(Boolean)`
abbrev as_items : Option Json → Items
as_items (some (arr items)) = items
as_items v = only_truthy v

abbrev with_read : Result (Option Json) → Result (List Json)
with_read (err e) = err e
with_read (ok routes) = routes_of (as_items routes)

module _ {P : Type 0} (host : WindowsHost P) where
  abbrev run : String → List String → Act P String
  run command args = host.machine.run command args

  abbrev loudly : String → List String → Act P (Unit {0})
  loudly command args = run command args >> return tt

  abbrev write_temporary : String → String → String → Act P String
  write_temporary prefix name contents = do
    dir ← host.machine.temp_dir prefix
    host.machine.write_file (host.machine.join dir name) contents
    return (host.machine.join dir name)

  abbrev payload_words : Option Json → Act P (List String)
  payload_words none p = (ok [], p)
  payload_words (some payload) p =
      then_act (write_temporary "bapc-ps-" "payload.json" (host.stringify payload) p)
        (λ path. return ("-PayloadPath" ∷ path ∷ []))

  abbrev or_braces : String → String
  or_braces s = if is_empty s then "{}" else s

  abbrev parsed : Result Json → Act P Json
  parsed r p = (r, p)

  -- `invokePs1`
  unfoldable pub invoke : String → Option Json → Act P Json
  invoke action payload = do
    words ← payload_words payload
    out ← run "powershell.exe" (
        ("-NoProfile" ∷ "-NonInteractive" ∷ "-ExecutionPolicy" ∷ "Bypass" ∷ "-File" ∷ host.script
          ∷ "-Action" ∷ action ∷ [])
        ++ words)
    parsed (host.parse (or_braces (host.trim out)))

  abbrev delegate : String → Option Json → Act P (Unit {0})
  delegate action payload = invoke action payload >> return tt

  unfoldable pub assert_keys : List Peer → Act P (Unit {0})
  assert_keys peers =
      for_all peers (λ p. reject_if (not (is_key p.public_key)) "invalid peer public key")

  unfoldable pub install_tunnel : WireGuardInput → Act P (Unit {0})
  unfolding tunnel_lines
  install_tunnel input = do
    path ←
        write_temporary "bapc-wg-" (host.interface_alias <+> ".conf")
          (join_with "\n" (tunnel_lines input) <+> "\n")
    ignoring (run "wireguard.exe" ("/uninstalltunnelservice" ∷ host.interface_alias ∷ []))
    loudly "wireguard.exe" ("/installtunnelservice" ∷ path ∷ [])

  unfoldable pub apply_wire_guard : WireGuardInput → Act P (Unit {0})
  apply_wire_guard input = assert_keys input.peers >> install_tunnel input

  unfoldable pub sync_peers : List Peer → Act P (Unit {0})
  sync_peers peers = do
    path ← write_temporary "bapc-wg-peers-" "peers.conf" (join_with "\n" (peer_lines peers))
    loudly "wg.exe" ("syncconf" ∷ host.interface_alias ∷ path ∷ [])

  unfoldable pub apply_peers : List Peer → Act P (Unit {0})
  apply_peers peers = assert_keys peers >> sync_peers peers

  unfoldable pub rotate_private_key : String → Act P (Unit {0})
  rotate_private_key reference = do
    path ← write_temporary "bapc-wg-rotate-" "private.key" reference
    loudly "wg.exe" ("set" ∷ host.interface_alias ∷ "private-key" ∷ path ∷ [])

  unfoldable pub apply_firewall : FirewallInput → Act P (Unit {0})
  apply_firewall input = delegate "ApplyFirewall" (some (firewall_json input))

  unfoldable pub rollback_firewall : String → Act P (Unit {0})
  rollback_firewall commit_id =
      delegate "RollbackFirewall" (some (obj (field "commitId" (str commit_id) end)))

  abbrev on_interface : Fields → Fields
  on_interface rest = field "interfaceAlias" (str host.interface_alias) rest

  unfoldable pub set_kill_switch : Bool → Act P (Unit {0})
  set_kill_switch enabled =
      delegate "SetKillSwitch" (some (obj (field "enabled" (bool enabled) (on_interface end))))

  unfoldable pub set_dns : List String → Act P (Unit {0})
  set_dns servers =
      delegate "SetDns" (some (obj (field "servers" (arr (strings servers)) (on_interface end))))

  unfoldable pub isolate : String → Act P (Unit {0})
  isolate reason = delegate "Isolate" none

  unfoldable pub restore : Act P (Unit {0})
  restore = delegate "Restore" none

  unfoldable pub collect_posture : Act P Json
  collect_posture = invoke "CollectPosture" none

  unfoldable pub read_routes : Act P (List Json)
  unfolding routes_of
  read_routes p = then_act (invoke "GetRoutes" none p) (λ v q. (with_read (read "routes" v), q))

  unfoldable pub replace_routes : List Route → Act P (Unit {0})
  replace_routes routes =
      delegate "ReplaceRoutes" (some (obj (field "routes" (arr (routes_json routes)) end)))

  unfoldable pub clear_transient_credentials : Act P (Unit {0})
  clear_transient_credentials = delegate "ClearCredentials" (some (obj (on_interface end)))
