-- ===== src/Mesh/Relays.antt =====
-- services/relay-fleet/pg-relay-store.ts, `PgRelayStore`: the table of relays.
use bapc_vpn_and_digital_sec.Base.{
  ℕ, ◌+◌, ◌*◌, min, String, Bool, true, false, not, ◌&&◌, ◌||◌, List, Option, none, some, ◌==◌,
  string_eq, if◌then◌else◌, ltb, filter, find_where, update_where, upsert, sort, map, text_before,
}
use bapc_vpn_and_digital_sec.Store.{Store, Relay}
use bapc_vpn_and_digital_sec.Mesh.Routing.{RelayHealth, Fraction}

-- `maxSessions>0?Math.min(100,(activeSessions/maxSessions)*100):0`
unfoldable pub percent_of : ℕ → ℕ → Fraction
percent_of sessions room =
    if ltb 0 room
    then record { used = min (100 * room) (sessions * 100); room = room }
    else record { used = 0; room = 1 }

abbrev time_or_epoch : Option ℕ → ℕ
time_or_epoch none = 0
time_or_epoch (some t) = t

unfoldable pub to_health : Relay → RelayHealth
to_health row = record {
  id = row.id;
  region = row.region;
  endpoint = row.endpoint;
  latency_ms = row.latency_ms;
  load_percent = row.load_percent;
  available = row.is_available;
  last_heartbeat = time_or_epoch row.last_heartbeat;
  active_sessions = row.active_sessions;
  capacity_percent = percent_of row.active_sessions (row.capacity_mbps * 20);
  throughput_bytes_per_sec = row.throughput_bytes_per_sec;
}

abbrev capacity_or : Option ℕ → ℕ
capacity_or none = 1000
capacity_or (some n) = n

unfoldable pub insert_relay : String → String → String → Option String → Option ℕ → Store → Store
insert_relay id region endpoint instance_id capacity s = record s {
  relays =
      upsert (λ r. r.id == id)
        (λ r. record r {
          region = region;
          endpoint = endpoint;
          is_available = true;
          last_heartbeat = some s.now;
          capacity_mbps = capacity_or capacity;
        })
        (record {
          id = id;
          region = region;
          endpoint = endpoint;
          is_available = true;
          last_heartbeat = some s.now;
          instance_id = instance_id;
          capacity_mbps = capacity_or capacity;
          load_percent = 0;
          latency_ms = 0;
          active_sessions = 0;
          throughput_bytes_per_sec = 0;
        })
        s.relays;
}

unfoldable pub get_relay : String → Store → Option Relay
get_relay id s = find_where (λ r. r.id == id) s.relays

unfoldable pub remove_relay : String → Store → Store
remove_relay id s = record s { relays = filter (λ r. not (r.id == id)) s.relays }

unfoldable pub list_relays : Store → List RelayHealth
list_relays s = map to_health (
    sort (λ a b. text_before a.region b.region || (a.region == b.region && text_before a.id b.id))
      s.relays)

pub record RelayHeartbeat : Type 0 where
  pub load_percent : ℕ
  pub latency_ms : ℕ
  pub active_sessions : ℕ
  pub throughput_bytes_per_sec : ℕ

unfoldable pub relay_heartbeat : String → RelayHeartbeat → Store → Store
relay_heartbeat id health s = record s {
  relays =
      update_where (λ r. r.id == id)
        (λ r. record r {
          load_percent = health.load_percent;
          latency_ms = health.latency_ms;
          active_sessions = health.active_sessions;
          throughput_bytes_per_sec = health.throughput_bytes_per_sec;
          is_available = true;
          last_heartbeat = some s.now;
        })
        s.relays;
}

abbrev is_fresh : ℕ → Option ℕ → Bool
is_fresh now none = false
is_fresh now (some t) = ltb now (t + 45000)

-- `candidates`: the relays that are available and sent a heartbeat within the last 45 seconds
unfoldable pub relay_candidates : Store → List RelayHealth
relay_candidates s =
    map to_health (filter (λ r. r.is_available && is_fresh s.now r.last_heartbeat) s.relays)
