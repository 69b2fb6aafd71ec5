-- ===== src/Tests/Native.antt =====
-- The adapters at concrete machines.
use bapc_vpn_and_digital_sec.Base.{
  ℕ, String, ◌≡◌, refl, inl, inr, Bool, true, List, [], ◌∷◌, ◌++◌, Option, none, some, ◌==◌,
  string_eq, if◌then◌else◌, all, ◌&&◌, decimal,
}
use bapc_vpn_and_digital_sec.Json.{null}
use bapc_vpn_and_digital_sec.Domain.{plain}
use bapc_vpn_and_digital_sec.Store.{Route}
use bapc_vpn_and_digital_sec.Store.Monad.{ok, err}
use bapc_vpn_and_digital_sec.Native.{Machine, WireGuardInput, FirewallRule}
use bapc_vpn_and_digital_sec.Native.Keys.{is_key, is_cidr, is_valid_peer}
use bapc_vpn_and_digital_sec.Native.Routes.{parse_tokens, route_tokens}
use bapc_vpn_and_digital_sec.Native.Linux.{
  Host, isolate, restore, rule_line, apply_wire_guard, bring_up, require_binary,
}
use bapc_vpn_and_digital_sec.Native.Windows.{WindowsHost, install_tunnel}
use bapc_vpn_and_digital_sec.Native.Windows as Windows
use bapc_vpn_and_digital_sec.Native.Operations.{operate, wire_guard}
use bapc_vpn_and_digital_sec.Native.Laws.{Tested, operate_missing, wire_guard_checked}
use bapc_vpn_and_digital_sec.Native.Firewall.{rule_line-IsOpen, isolate_unheard}
use bapc_vpn_and_digital_sec.Native.RouteWords.{parsed_of, parse_tokens-route_tokens}

-- a machine whose state is the commands it was given, and on which a command fails or succeeds by its name
abbrev machine : (String → Bool) → Machine (List (String × List String))
machine works = record {
  run = λ command args log.
      (if works command then ok "" else err (plain "exit 1"), log ++ (command, args) ∷ []);
  join = λ dir name. name;
  temp_dir = λ prefix log. (ok prefix, log);
  write_file = λ path contents log. (ok tt, log);
  exists = λ path log. true;
}

-- a machine that forgets, where `nft` fails
abbrev helpless : Machine (Unit {0})
helpless = record {
  run = λ command args log.
      (if command == "nft" then err (plain "Operation not permitted") else ok "", log);
  join = λ dir name. name;
  temp_dir = λ prefix log. (ok prefix, log);
  write_file = λ path contents log. (ok tt, log);
  exists = λ path log. true;
}

abbrev linux_host : (String → Bool) → Host (List (String × List String))
linux_host works = record { iface = "bapc0"; machine = machine works }

abbrev windows_host : WindowsHost (List (String × List String))
windows_host = record {
  interface_alias = "BAPC";
  script = "apply.ps1";
  machine = machine (λ c. true);
  stringify = λ v. "{}";
  parse = λ s. ok null;
  trim = λ s. s;
}

abbrev identity : String → String
identity s = s

abbrev no_number : String → Option ℕ
no_number s = none

-- a tunnel to one peer whose key is too short
abbrev short_key : WireGuardInput
short_key = record {
  private_key_reference = "/keys/private";
  addresses = "10.144.0.2/32" ∷ [];
  listen_port = none;
  peers =
      record {
        public_key = "abc";
        endpoint = none;
        allowed_ips = "10.144.0.3/32" ∷ [];
        keepalive_seconds = 25;
      }
      ∷ [];
}

abbrev looked_for : List (String × List String)
looked_for = ("which", "wg" ∷ []) ∷ ("which", "ip" ∷ []) ∷ []

wire_guard_checked_example :
    Tested
      (all is_valid_peer short_key.peers && all is_cidr short_key.addresses)
      (apply_wire_guard (linux_host (λ c. true)) short_key [])
      (bring_up (linux_host (λ c. true)) short_key looked_for)
      looked_for
    × Tested
        (all (λ x. is_key x.public_key) short_key.peers)
        (Windows.apply_wire_guard windows_host short_key [])
        (install_tunnel windows_host short_key [])
        []
unfolding require_binary
wire_guard_checked_example =
    wire_guard_checked (linux_host (λ c. true)) windows_host short_key []
      (("which", "wg" ∷ []) ∷ []) looked_for refl refl

abbrev ssh_for_developers : FirewallRule
ssh_for_developers = record {
  id = "p1";
  action = "ALLOW";
  protocols = "ANY" ∷ [];
  ports = 22 ∷ [];
  source_zones = "ZONE_DEV" ∷ [];
  destination_zones = "ZONE_STAGING" ∷ [];
}

abbrev everything : FirewallRule
everything = record {
  id = "p1";
  action = "ALLOW";
  protocols = "TCP" ∷ [];
  ports = [];
  source_zones = [];
  destination_zones = [];
}

rule_line-IsOpen_example : rule_line identity ssh_for_developers ≡ rule_line identity everything
rule_line-IsOpen_example =
    rule_line-IsOpen identity ssh_for_developers everything (inl refl) (inr refl) refl refl

abbrev helpless_host : Host (Unit {0})
helpless_host = record { iface = "bapc0"; machine = helpless }

isolate_unheard_example :
    (isolate helpless_host "worm" tt ≡ (ok tt, tt)) × (restore helpless_host tt ≡ (ok tt, tt))
unfolding require_binary
isolate_unheard_example =
    isolate_unheard helpless_host "worm" tt tt refl
      (λ args. (plain "Operation not permitted", refl))

abbrev over_gateway : Route
over_gateway = record {
  destination = "10.0.0.0/8";
  gateway = some "10.144.0.1";
  interface_name = "bapc0";
  metric = 50;
}

abbrev fifty : String → Option ℕ
fifty t = if t == "50" then some 50 else none

parse_tokens-route_tokens_example :
    parse_tokens fifty (route_tokens over_gateway) ≡ some (parsed_of over_gateway)
unfolding decimal
parse_tokens-route_tokens_example =
    parse_tokens-route_tokens fifty over_gateway
      ((refl, refl, refl, refl), refl, (refl, refl, refl, refl), (refl, refl, refl, refl)) refl refl

-- `wg` is found, `ip` is not
abbrev without_ip : Host (Unit {0})
without_ip = record {
  iface = "bapc0";
  machine = record helpless {
    run = λ command args log.
        (if all (λ a. a == "wg") args then ok "/usr/bin/wg" else err (plain "exit 1"), log);
  };
}

operate_missing_example :
    operate without_ip identity no_number (wire_guard short_key) tt
    ≡ (err (plain "required binary 'ip' not found on PATH"), tt)
operate_missing_example =
    operate_missing without_ip identity no_number (wire_guard short_key) tt tt "ip"
      (inr ("/usr/bin/wg", tt, refl, inl (refl, (plain "exit 1", refl))))
