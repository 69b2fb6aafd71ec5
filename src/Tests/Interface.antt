-- ===== src/Tests/Interface.antt =====
-- The table of routes and the correlator over its two stores at concrete inputs.
use bapc_vpn_and_digital_sec.Base.{
  ℕ, ◌<◌, ◌*◌, String, ◌≡◌, ◌⊎◌, true, false, none, some, List, [], ◌∷◌, string_eq,
}
use bapc_vpn_and_digital_sec.Json.{null, obj, end}
use bapc_vpn_and_digital_sec.Domain.{deny, plain}
use bapc_vpn_and_digital_sec.Store.Monad.{err}
use bapc_vpn_and_digital_sec.Rest.Replay.{done}
use bapc_vpn_and_digital_sec.Rest.Guard.{ApiClaims, lacks_role, verify_bearer}
use bapc_vpn_and_digital_sec.Rest.Http.{http}
use bapc_vpn_and_digital_sec.Rest.Router.{
  Exchange, Route, find_route, path_of, no_route, gives, throws,
}
use bapc_vpn_and_digital_sec.Rest.Router.Handle.{handle}
use bapc_vpn_and_digital_sec.Threat.{above, ThreatSignal}
use bapc_vpn_and_digital_sec.Api.{World, Coercions}
use bapc_vpn_and_digital_sec.Api.Routes.{Services, routes}
use bapc_vpn_and_digital_sec.Api.Routes.Laws.{asks_role, routes_guarded}
use bapc_vpn_and_digital_sec.Tests.{good_posture, one_node}
use bapc_vpn_and_digital_sec.Tests.Api.{env, post_request}

abbrev coercions : Coercions
coercions = record {
  of_object = λ j. "[object Object]";
  number_of = λ j. 0;
  milli = λ otherwise j. above otherwise;
  trim = λ s. s;
  date = λ j. 0;
  as_route = λ j. record { destination = ""; gateway = none; interface_name = ""; metric = 0 };
  as_files = λ fs. [];
  as_posture = λ j. good_posture;
  as_names = λ j. [];
  as_ports = λ j. [];
  as_action = λ j. deny;
}

abbrev services : Services
services = record {
  js = coercions;
  iso = λ t. "now";
  digest = λ j. "digest";
  hash = λ j. "hash";
  number_of = λ j. none;
  number_of_text = λ s. 0;
  query_get = λ k q. none;
  to_json = λ v. null;
  sign = λ d. "signature";
  refresh_ms = 30000;
  verify_clearance = λ t n at. err (plain "refused");
  fleet = none;
  environment = "test";
  database_health = null;
  other = λ name c w. (gives null, w);
  document = λ name c w. throws (http no_route);
}

abbrev world : World
world = record { store = one_node; gateways = []; signals = [] }

abbrev exchange : Exchange World
exchange = record {
  hits = [];
  nonces = [];
  responses = [];
  metrics = record { counters = []; label_sets = [] };
  set_headers = [];
  app = world;
}

routes_guarded_example :
    ((handle env 1000 "r1" true (routes services) post_request exchange).1.app ≡ world)
    ⊎ ((route : Route World) × (groups : List String) × (claims : ApiClaims) × (find_route
            (routes services)
            "POST"
            (path_of post_request)
          ≡ some (route, groups))
        × (asks_role route ≡ true)
        × (verify_bearer env.sign env.bearer env.split env.read_claims 1000 route.roles
              (some "token")
            ≡ done claims)
        × (1000 < claims.exp * 1000)
        × (lacks_role route.roles claims.roles ≡ false))
routes_guarded_example = routes_guarded services env 1000 "r1" true post_request exchange

abbrev signal_at : ℕ → ThreatSignal
signal_at t = record {
  node_id = some "n1";
  kind = "posture_failure";
  confidence = above 1000;
  weight = above 15000;
  at_ms = t;
  metadata = obj end;
}

abbrev two_signals : List ThreatSignal
two_signals = signal_at 10 ∷ signal_at 20 ∷ []
