-- ===== src/Store/Desired.antt =====
-- services/mesh-controller/pg-desired-state-store.ts, `PgDesiredStateStore`.
use bapc_vpn_and_digital_sec.Base.{
  ◌+◌, String, Bool, Option, List, ◌==◌, number_eq, string_eq, find_where, upsert,
}
use bapc_vpn_and_digital_sec.Store.{Store, DesiredState, Route}

unfoldable pub get_desired : String → Store → Option DesiredState
get_desired node_id s = find_where (λ d. d.node_id == node_id) s.desired

pub record DesiredInput : Type 0 where
  pub routes : List Route
  pub dns_servers : List String
  pub kill_switch_enabled : Bool
  pub integrity_files : List (String × String)

-- `upsert`: every field is replaced, and the revision grows by one.
unfoldable pub put_desired : String → DesiredInput → Store → Store
put_desired node_id input s = record s {
  desired =
      upsert (λ d. d.node_id == node_id)
        (λ d. record d {
          revision = d.revision + 1;
          routes = input.routes;
          dns_servers = input.dns_servers;
          kill_switch_enabled = input.kill_switch_enabled;
          integrity_files = input.integrity_files;
          updated_at = s.now;
        })
        (record {
          node_id = node_id;
          revision = 1;
          routes = input.routes;
          dns_servers = input.dns_servers;
          kill_switch_enabled = input.kill_switch_enabled;
          integrity_files = input.integrity_files;
          updated_at = s.now;
        })
        s.desired;
}
