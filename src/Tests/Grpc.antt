-- ===== src/Tests/Grpc.antt =====
-- The stream of heartbeats at a concrete queue.
use bapc_vpn_and_digital_sec.Base.{
  ◌≡◌, refl, false, none, some, [], ◌∷◌, ◌==◌, string_eq, All, decimal,
}
use bapc_vpn_and_digital_sec.Json.{obj, end}
use bapc_vpn_and_digital_sec.Store.{Store, Command}
use bapc_vpn_and_digital_sec.Store.Commands.{pending_commands}
use bapc_vpn_and_digital_sec.Grpc.Stream.{
  action_in, stream_heartbeat, stream_heartbeat-pending_commands,
}
use bapc_vpn_and_digital_sec.Tests.{one_node}

abbrev correction : Command
correction = record {
  id = "c1";
  node_id = "n1";
  type = "RECONCILE";
  payload = obj end;
  priority = 150;
  issued_at = 900;
  not_before = 900;
  expires_at = 9000;
  acknowledged_at = none;
  result = none;
}

abbrev waiting : Store
waiting = record one_node { commands = correction ∷ [] }

stream_heartbeat-pending_commands_example :
    ((stream_heartbeat decimal "n1" waiting).0
      ≡ record { action = "NOOP"; payload = some (obj end) })
    × All
        (λ x. (x.id == "c1") ≡ false)
        (pending_commands "n1" 20 (stream_heartbeat decimal "n1" waiting).1)
unfolding pending_commands action_in
stream_heartbeat-pending_commands_example =
    stream_heartbeat-pending_commands decimal "n1" "n1" 20 correction [] waiting refl refl
