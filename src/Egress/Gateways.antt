-- ===== src/Egress/Gateways.antt =====
-- services/egress/pg-egress-store.ts (`PgEgressStore`): the registry of egress gateways, as the rows of its
-- table. `now` is the clock reading of the statement.
use bapc_vpn_and_digital_sec.Base.{
  ℕ, ◌+◌, ◌*◌, min, String, Bool, true, false, not, ◌&&◌, ◌||◌, Option, none, some, List, map, ltb,
  ◌==◌, number_eq, string_eq, filter, find_where, update_where, upsert, text_before, sort,
}
use bapc_vpn_and_digital_sec.Mesh.Routing.{Fraction}
use bapc_vpn_and_digital_sec.Egress.{EgressGateway}

pub record GatewayRow : Type 0 where
  pub id : String
  pub region : String
  pub fixed_ip : String
  pub is_healthy : Bool
  pub state : String
  pub last_heartbeat : Option ℕ
  pub load_percent : ℕ
  pub latency_ms : ℕ
  pub active_sessions : ℕ
  pub max_sessions : ℕ

pub record EgressHeartbeat : Type 0 where
  pub load_percent : ℕ
  pub healthy : Bool
  pub latency_ms : ℕ
  pub active_sessions : ℕ

-- `maxSessions>0?Math.min(100,(activeSessions/maxSessions)*100):0`
abbrev pub capacity_of : ℕ → ℕ → Fraction
capacity_of used ℕ.zero = record { used = 0; room = 1 }
capacity_of used (ℕ.suc n) = record { used = min (used * 100) ((n + 1) * 100); room = n + 1 }

abbrev time_or_epoch : Option ℕ → ℕ
time_or_epoch none = 0
time_or_epoch (some t) = t

unfoldable pub to_gateway : GatewayRow → EgressGateway
to_gateway r = record {
  id = r.id;
  region = r.region;
  fixed_ip = r.fixed_ip;
  healthy = r.is_healthy;
  load_percent = r.load_percent;
  last_check = time_or_epoch r.last_heartbeat;
  latency_ms = r.latency_ms;
  active_sessions = r.active_sessions;
  capacity_percent = capacity_of r.active_sessions r.max_sessions;
}

-- `COALESCE($4,500)`
abbrev sessions_or : Option ℕ → ℕ
sessions_or none = 500
sessions_or (some n) = n

unfoldable pub insert_gateway :
    ℕ → String → String → String → Option ℕ → List GatewayRow → List GatewayRow
insert_gateway now id region fixed_ip sessions rows =
    upsert (λ r. r.id == id)
      (λ r. record r {
        region = region;
        fixed_ip = fixed_ip;
        is_healthy = true;
        last_heartbeat = some now;
        max_sessions = sessions_or sessions;
      })
      (record {
        id = id;
        region = region;
        fixed_ip = fixed_ip;
        is_healthy = true;
        state = "ACTIVE";
        last_heartbeat = some now;
        load_percent = 0;
        latency_ms = 0;
        active_sessions = 0;
        max_sessions = sessions_or sessions;
      })
      rows

unfoldable pub get_gateway : String → List GatewayRow → Option GatewayRow
get_gateway id rows = find_where (λ r. r.id == id) rows

unfoldable pub remove_gateway : String → List GatewayRow → List GatewayRow
remove_gateway id rows = filter (λ r. not (r.id == id)) rows

unfoldable pub gateway_heartbeat : ℕ → String → EgressHeartbeat → List GatewayRow → List GatewayRow
gateway_heartbeat now id h rows =
    update_where (λ r. r.id == id)
      (λ r. record r {
        load_percent = h.load_percent;
        is_healthy = h.healthy;
        latency_ms = h.latency_ms;
        active_sessions = h.active_sessions;
        last_heartbeat = some now;
      })
      rows

abbrev row_before : GatewayRow → GatewayRow → Bool
row_before a b = text_before a.region b.region || (a.region == b.region && text_before a.id b.id)

unfoldable pub list_gateways : List GatewayRow → List EgressGateway
unfolding to_gateway
list_gateways rows = map to_gateway (sort row_before rows)

abbrev is_fresh : ℕ → Option ℕ → Bool
is_fresh now none = false
is_fresh now (some t) = ltb now (t + 30000)

unfoldable pub gateway_candidates : ℕ → List GatewayRow → List EgressGateway
unfolding to_gateway
gateway_candidates now rows =
    map to_gateway (filter (λ r. r.state == "ACTIVE" && is_fresh now r.last_heartbeat) rows)
