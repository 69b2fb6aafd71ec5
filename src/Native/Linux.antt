-- ===== src/Native/Linux.antt =====
-- native/linux/adapter.ts, `LinuxPlatformAdapter`, over a machine. `lower` is `toLowerCase` and `number_of`
-- is `Number`. The commands, their arguments and their order are those of the source.
use bapc_vpn_and_digital_sec.Base.{
  ℕ, String, Bool, true, false, not, List, [], ◌∷◌, ◌++◌, Option, none, some, map, ◌==◌, string_eq,
  if◌then◌else◌, contains, is_empty, split_at, join_with, decimal, ◌<+>◌,
}
use bapc_vpn_and_digital_sec.Store.{Route}
use bapc_vpn_and_digital_sec.Store.Monad.{Result, ok, err}
use bapc_vpn_and_digital_sec.Native.{
  Peer, WireGuardInput, FirewallRule, FirewallInput, Machine, Act, ◌>>=◌, ◌>>◌, return, ignoring,
  succeeds, or_message, for_all, text_if, number_if, peer_lines,
}
use bapc_vpn_and_digital_sec.Native.Keys.{assert_peers, assert_cidr_list}
use bapc_vpn_and_digital_sec.Native.Routes.{ParsedRoute, parse_lines, route_tokens}

-- `new LinuxPlatformAdapter(iface, run)` on its machine
pub record Host (P : Type 0) : Type 0 where
  pub iface : String
  pub machine : Machine P

pub record LinuxPosture : Type 0 where
  pub os_current : Bool
  pub disk_encrypted : Bool
  pub secure_boot : Bool
  pub firewall_enabled : Bool
  pub agent_healthy : Bool
  pub banned_process_found : Bool

abbrev port_words : Option ℕ → List String
port_words none = []
port_words (some n) = "listen-port" ∷ decimal n ∷ []

abbrev endpoint_words : Option String → List String
endpoint_words none = []
endpoint_words (some e) = "endpoint" ∷ e ∷ []

-- the arguments of `wg set` for the peers
unfoldable pub peer_words : List Peer → List String
peer_words [] = []
peer_words (p ∷ ps) =
    ("peer"
      ∷ p.public_key
      ∷ "allowed-ips"
      ∷ join_with "," p.allowed_ips
      ∷ "persistent-keepalive"
      ∷ decimal p.keepalive_seconds
      ∷ endpoint_words (text_if p.endpoint))
    ++ peer_words ps

abbrev chain_words : String → String → String → List String
chain_words table hook priority =
    "add" ∷ "chain" ∷ "inet" ∷ table ∷ hook ∷ "{" ∷ "type" ∷ "filter" ∷ "hook" ∷ hook ∷ "priority"
    ∷ priority ∷ "policy" ∷ "drop;" ∷ "}" ∷ []

module _ (lower : String → String) where
  abbrev pub protocols_text : List String → String
  protocols_text protocols =
      if contains protocols "ANY" then "" else join_with "," (map lower protocols)

  abbrev pub ports_text : List ℕ → String
  ports_text [] = ""
  ports_text (n ∷ ns) = "{ " <+> join_with "," (map decimal (n ∷ ns)) <+> " }"

  abbrev pub port_clause : String → String → String
  port_clause proto ports =
      if is_empty proto then "" else if is_empty ports then "" else proto <+> " dport " <+> ports

  abbrev pub verb_of : String → String
  verb_of action = if action == "ALLOW" then "accept" else "drop"

  unfoldable pub rule_line : FirewallRule → String
  rule_line r =
      "    "
      <+> port_clause (protocols_text r.protocols) (ports_text r.ports)
      <+> " counter "
      <+> verb_of r.action
      <+> " comment \""
      <+> r.id
      <+> "\""

  unfoldable pub ruleset_lines : List FirewallRule → List String
  ruleset_lines rules =
      "table inet bapc_security {"
        ∷ "  chain forward {"
        ∷ "    type filter hook forward priority 0; policy drop;"
        ∷ map rule_line rules
      ++ "  }" ∷ "}" ∷ []

module _ {P : Type 0} (host : Host P) where
  abbrev pub run : String → List String → Act P String
  run command args = host.machine.run command args

  -- a file in a fresh directory
  abbrev write_temporary : String → String → String → Act P String
  write_temporary prefix name contents = do
    dir ← host.machine.temp_dir prefix
    host.machine.write_file (host.machine.join dir name) contents
    return (host.machine.join dir name)

  abbrev quietly : String → List String → Act P (Unit {0})
  quietly command args = ignoring (run command args)

  abbrev loudly : String → List String → Act P (Unit {0})
  loudly command args = run command args >> return tt

  unfoldable pub require_binary : String → Act P (Unit {0})
  require_binary name p =
      or_message ("required binary '" <+> name <+> "' not found on PATH")
        (run "which" (name ∷ []) p)

  abbrev add_link : Bool → Act P (Unit {0})
  add_link true p = (ok tt, p)
  add_link false p = loudly "ip" ("link" ∷ "add" ∷ host.iface ∷ "type" ∷ "wireguard" ∷ []) p

  -- `applyWireGuard` after its checks
  unfoldable pub bring_up : WireGuardInput → Act P (Unit {0})
  unfolding peer_words
  bring_up input = do
    exists ← succeeds (run "ip" ("link" ∷ "show" ∷ host.iface ∷ []))
    add_link exists
    key_path ← write_temporary "bapc-wg-" "private.key" input.private_key_reference
    loudly "wg" (
        "set" ∷ host.iface ∷ "private-key" ∷ key_path ∷ port_words (number_if input.listen_port)
        ++ peer_words input.peers)
    loudly "ip" ("link" ∷ "set" ∷ host.iface ∷ "up" ∷ [])
    for_all input.addresses
        (λ a. quietly "ip" ("address" ∷ "replace" ∷ a ∷ "dev" ∷ host.iface ∷ []))

  unfoldable pub apply_wire_guard : WireGuardInput → Act P (Unit {0})
  apply_wire_guard input = do
    require_binary "wg"
    require_binary "ip"
    assert_peers input.peers
    assert_cidr_list input.addresses
    bring_up input

  unfoldable pub sync_peers : List Peer → Act P (Unit {0})
  sync_peers peers = do
    path ← write_temporary "bapc-wg-peers-" "peers.conf" (join_with "\n" (peer_lines peers))
    loudly "wg" ("syncconf" ∷ host.iface ∷ path ∷ [])

  unfoldable pub apply_peers : List Peer → Act P (Unit {0})
  apply_peers peers = do require_binary "wg"; assert_peers peers; sync_peers peers

  unfoldable pub rotate_private_key : String → Act P (Unit {0})
  rotate_private_key reference = do
    require_binary "wg"
    key_path ← write_temporary "bapc-wg-rotate-" "private.key" reference
    loudly "wg" ("set" ∷ host.iface ∷ "private-key" ∷ key_path ∷ [])

  unfoldable pub apply_firewall : (String → String) → FirewallInput → Act P (Unit {0})
  apply_firewall lower input = do
    require_binary "nft"
    path ←
        write_temporary "bapc-nft-" (input.commit_id <+> ".nft")
          (join_with "\n" (ruleset_lines lower input.rules) <+> "\n")
    loudly "nft" ("-f" ∷ path ∷ [])

  unfoldable pub rollback_firewall : String → Act P (Unit {0})
  rollback_firewall commit_id = do
    require_binary "nft"
    quietly "nft" ("delete" ∷ "table" ∷ "inet" ∷ "bapc_security" ∷ [])

  unfoldable pub set_kill_switch : Bool → Act P (Unit {0})
  set_kill_switch true = do
    require_binary "nft"
    quietly "nft" ("add" ∷ "table" ∷ "inet" ∷ "bapc_killswitch" ∷ [])
    quietly "nft" (chain_words "bapc_killswitch" "output" "0;")
    loudly "nft" (
        "add" ∷ "rule" ∷ "inet" ∷ "bapc_killswitch" ∷ "output" ∷ "oifname" ∷ host.iface ∷ "accept"
        ∷ [])
  set_kill_switch false = do
    require_binary "nft"
    quietly "nft" ("delete" ∷ "table" ∷ "inet" ∷ "bapc_killswitch" ∷ [])

  unfoldable pub set_dns : List String → Act P (Unit {0})
  set_dns servers = do
    require_binary "resolvectl"
    loudly "resolvectl" ("dns" ∷ host.iface ∷ servers)

  unfoldable pub isolate : String → Act P (Unit {0})
  isolate reason = do
    require_binary "nft"
    quietly "nft" ("add" ∷ "table" ∷ "inet" ∷ "bapc_quarantine" ∷ [])
    quietly "nft" (chain_words "bapc_quarantine" "forward" "-10;")

  unfoldable pub restore : Act P (Unit {0})
  restore = do
    require_binary "nft"
    quietly "nft" ("delete" ∷ "table" ∷ "inet" ∷ "bapc_quarantine" ∷ [])

  abbrev lists_rules : Result String × P → Bool
  lists_rules (ok out, p) = not (is_empty out)
  lists_rules (err _, p) = false

  unfoldable pub collect_posture : Act P LinuxPosture
  collect_posture p =
      let listed = run "nft" ("list" ∷ "table" ∷ "inet" ∷ "bapc_security" ∷ []) p in
      (
        ok (record {
          os_current = true;
          disk_encrypted = host.machine.exists "/etc/crypttab" listed.1;
          secure_boot = host.machine.exists "/sys/firmware/efi/efivars" p;
          firewall_enabled = lists_rules listed;
          agent_healthy = true;
          banned_process_found = false;
        }),
        listed.1,
      )

  unfoldable pub read_routes : (String → Option ℕ) → Act P (List ParsedRoute)
  read_routes number_of = do
    require_binary "ip"
    out ← run "ip" ("route" ∷ "show" ∷ [])
    return (parse_lines number_of (split_at 10 out))

  unfoldable pub replace_routes : List Route → Act P (Unit {0})
  replace_routes routes = do
    require_binary "ip"
    for_all routes (λ r. loudly "ip" ("route" ∷ "replace" ∷ route_tokens r))

  unfoldable pub clear_transient_credentials : Act P (Unit {0})
  clear_transient_credentials = do
    require_binary "ip"
    quietly "ip" ("link" ∷ "set" ∷ host.iface ∷ "down" ∷ [])
