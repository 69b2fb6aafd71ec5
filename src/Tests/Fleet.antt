-- ===== src/Tests/Fleet.antt =====
-- Recovery, relays and threat signals at concrete inputs.
use bapc_vpn_and_digital_sec.Base.{
  ℕ, ◌≤◌, String, ◌≡◌, refl, true, none, some, List, [], ◌∷◌, arith, ◌==◌, number_eq, string_eq,
}
use bapc_vpn_and_digital_sec.Json.{Json, num, obj, field, end}
use bapc_vpn_and_digital_sec.Store.Monad.{ok}
use bapc_vpn_and_digital_sec.Recovery.{Snapshot, Channel, save}
use bapc_vpn_and_digital_sec.Recovery.Laws.{count_lkg, save-one_lkg}
use bapc_vpn_and_digital_sec.Relay.{
  RelaySession, RelayServer, register, unregister, forward, look_up, assign,
}
use bapc_vpn_and_digital_sec.Relay.Laws.{unregister-forward}
use bapc_vpn_and_digital_sec.Threat.{above, ThreatSignal, score, severity_of}
use bapc_vpn_and_digital_sec.Threat.Score.{rank, score-append}
use bapc_vpn_and_digital_sec.Threat.{attributed_node, raw_score}
use bapc_vpn_and_digital_sec.Threat.Engine.{evaluate}
use bapc_vpn_and_digital_sec.Threat.Engine.Containment.{evaluate-contained}
use bapc_vpn_and_digital_sec.Store.Repositories.{get_node}
use bapc_vpn_and_digital_sec.Store.Commands.{has_pending}
use bapc_vpn_and_digital_sec.Tests.{n1, one_node}

abbrev digest_of : Json → String
digest_of (obj (field name v rest)) = name
digest_of v = "none"

-- a channel that remembers the last document, which is verified against its digest
abbrev keeper : Channel Json
keeper = record {
  healthy = λ held. true;
  push = λ scope document held. document;
  verify = λ scope checksum held. digest_of held == checksum;
}

-- the keys of this document in the order of the column
abbrev by_length : Json → Json
by_length v = obj (field "id" (num 2) (field "version" (num 1) end))

abbrev rollout : Json
rollout = obj (field "version" (num 1) (field "id" (num 2) end))

abbrev snapshot : Snapshot
snapshot = record {
  id = "s1";
  scope = "mesh";
  checksum = "digest";
  document = obj end;
  created_by = "u1";
  lkg = true;
}

save-one_lkg_example : count_lkg "mesh" (save snapshot []) ≤ 1
save-one_lkg_example = save-one_lkg snapshot [] (λ scope. omega arith) "mesh"

abbrev session : RelaySession
session = record {
  session_id = "x1";
  a = record { host = "1.2.3.4"; port = 1000 };
  b = record { host = "5.6.7.8"; port = 2000 };
}

abbrev no_sessions : RelayServer
no_sessions = record { sessions = []; by_endpoint = []; bytes_relayed = 0 }

unregister-forward_example :
    ((forward session.a 100 (unregister "x1" (register session no_sessions))).0 ≡ none)
    × ((forward session.b 100 (unregister "x1" (register session no_sessions))).0 ≡ none)
unfolding look_up register assign
unregister-forward_example = unregister-forward "x1" session 100 (register session no_sessions) refl

abbrev signal_at : ℕ → ThreatSignal
signal_at at_ms = record {
  node_id = some "n1";
  kind = "dns";
  confidence = above 900;
  weight = above 50000;
  at_ms = at_ms;
  metadata = obj end;
}

score-append_example :
    (score (signal_at 1 ∷ signal_at 2 ∷ []) ≤ 100)
    × (score (signal_at 1 ∷ []) ≤ score (signal_at 1 ∷ signal_at 2 ∷ []))
    × (rank (severity_of (score (signal_at 1 ∷ [])))
        ≤ rank (severity_of (score (signal_at 1 ∷ signal_at 2 ∷ []))))
score-append_example = score-append [] (signal_at 1 ∷ []) (signal_at 2 ∷ [])

-- three of these signals score 100
abbrev alarms : List ThreatSignal
alarms = signal_at 1 ∷ signal_at 2 ∷ signal_at 3 ∷ []

evaluate-contained_example :
    ((evaluate alarms one_node).0
      ≡ ok (record {
        score = score alarms;
        severity = severity_of (score alarms);
        contained = true;
      }))
    × (has_pending "n1" "QUARANTINE" (evaluate alarms one_node).1 ≡ true)
unfolding attributed_node get_node score raw_score
evaluate-contained_example = evaluate-contained alarms "n1" n1 one_node refl refl (omega arith)
