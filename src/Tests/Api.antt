-- ===== src/Tests/Api.antt =====
-- The router and the REST interface at concrete inputs.
use bapc_vpn_and_digital_sec.Base.{
  ℕ, ◌+◌, String, ◌≡◌, ◌↔◌, ◌⊎◌, true, false, none, some, List, [], ◌∷◌, number_eq, string_eq,
  length, All,
}
use bapc_vpn_and_digital_sec.Json.{Json, num, obj, field, end}
use bapc_vpn_and_digital_sec.Rest.Replay.{done, claim_memory}
use bapc_vpn_and_digital_sec.Rest.Path.{pattern_of, match_path}
use bapc_vpn_and_digital_sec.Rest.Path.Laws.{fill, Fits, write, NoSlash, match_path_iff}
use bapc_vpn_and_digital_sec.Rest.Http.{Request, parse_body, read_json}
use bapc_vpn_and_digital_sec.Rest.Http.Laws.{read_json_whole}
use bapc_vpn_and_digital_sec.Rest.Router.{
  Context, Outcome, gives, json_handler, RouteOptions, Route, Exchange, Platform, find_route,
  path_of,
}
use bapc_vpn_and_digital_sec.Rest.Router.Handle.{handle}
use bapc_vpn_and_digital_sec.Rest.Router.Guards.{Admitted, handle_guarded}

abbrev pub env : Platform
env = record {
  sign = λ t. t;
  bearer = λ h. some h;
  split = λ t. (t, t);
  read_claims = λ t. done (record { sub = t; roles = some ("security-agent" ∷ []); exp = 5000 });
  decode_uri = λ t. some t;
  parse_json = λ b. some (obj (field "size" (num (length b)) end));
  hash_body = λ j. "h";
  label_before = λ a b. false;
  of_database = λ c. c;
  claim = claim_memory;
}

abbrev closed_options : RouteOptions
closed_options = record {
  idempotent = false;
  rate_limit = none;
  public = false;
  replay_protected = false;
}

-- a route that counts its calls
abbrev counting : Context → ℕ → Outcome Json × ℕ
counting c n = (gives (num n), n + 1)

abbrev counter_route : Route ℕ
counter_route = record {
  method = "POST";
  pattern = pattern_of "/things/:id";
  roles = "security-agent" ∷ [];
  handler = json_handler counting;
  options = closed_options;
}

abbrev pub post_request : Request
post_request = record {
  method = "POST";
  url = some "/things/t7?x=1";
  origin = none;
  authorization = some "token";
  content_type = some "application/json";
  nonce = none;
  idempotency_key = none;
  chunks = (123 ∷ []) ∷ (125 ∷ []) ∷ [];
}

abbrev idle : Exchange ℕ
idle = record {
  hits = [];
  nonces = [];
  responses = [];
  metrics = record { counters = []; label_sets = [] };
  set_headers = [];
  app = 41;
}

handle_guarded_example :
    ((handle env 1000 "r1" true (counter_route ∷ []) post_request idle).1.app ≡ 41)
    ⊎ ((found : Route ℕ × List String) × (find_route
            (counter_route ∷ [])
            "POST"
            (path_of post_request)
          ≡ some found)
        × Admitted env 1000 "r1" post_request idle found
            (handle env 1000 "r1" true (counter_route ∷ []) post_request idle).1.app)
handle_guarded_example = handle_guarded env 1000 "r1" true (counter_route ∷ []) post_request idle

match_path_example : (match_path (pattern_of "/things/:id") "/things/t7" ≡ some ("t7" ∷ [])) ↔ (
    ("/things/t7" ≡ write (fill (pattern_of "/things/:id") ("t7" ∷ [])))
    × Fits (pattern_of "/things/:id") ("t7" ∷ [])
    × All NoSlash ("t7" ∷ []))
match_path_example = match_path_iff "/things/:id" "/things/t7" ("t7" ∷ [])

read_json_example :
    read_json (λ b. some (num (length b))) post_request
    ≡ parse_body
        (λ b. some (num (length b)))
        (some "application/json")
        post_request.chunks
        (123 ∷ 125 ∷ [])
read_json_example = read_json_whole (λ b. some (num (length b))) post_request
