-- ===== src/Rest/Router.antt =====
-- src/api/rest/router.ts, `RestRouter.handle`: the guards of a request, the call of its handler and the
-- response. What the router keeps is an `Exchange`: the hits of the rate limiter, the rows of the two
-- stores, the metrics, the headers set on the response, and the state `S` of the application, on which
-- the handlers run. One request is handled at one time `now`, with `id` for its fresh identifier.
pub mod Handle
pub mod Admission
pub mod Guards
use bapc_vpn_and_digital_sec.Base.{
  ℕ, ◌+◌, ◌-◌, ◌/◌, String, Bool, false, not, Option, none, some, List, [], ◌∷◌, ◌++◌,
  if◌then◌else◌, ◌==◌, number_eq, string_eq, split_at, is_empty,
}
use bapc_vpn_and_digital_sec.Json.{Json, str, num, obj, end, field}
use bapc_vpn_and_digital_sec.Domain.{plain}
use bapc_vpn_and_digital_sec.Rest.Replay.{HttpError, Answer, done, fails, Nonces, enforce}
use bapc_vpn_and_digital_sec.Rest.Guard.{RawClaims, verify_bearer}
use bapc_vpn_and_digital_sec.Rest.RateLimit.{RateLimitRule, RateLimitResult, Hits, check}
use bapc_vpn_and_digital_sec.Rest.Idempotency.{StoredResponse, IdempotencyRow, with_idempotency}
use bapc_vpn_and_digital_sec.Rest.Metrics.{Metrics, incr_labeled, render}
use bapc_vpn_and_digital_sec.Rest.Path.{Piece, pattern_of, keys_of, match_path}
use bapc_vpn_and_digital_sec.Rest.Http.{
  Thrown, http, failed, http_error, as_http_error, Request, Headers, Body, empty, json, text, bytes,
  Response, read_json,
}

pub record Caller : Type 0 where
  pub sub : String
  pub roles : List String

pub record Context : Type 0 where
  pub request : Request
  pub claims : Caller
  pub body : Json
  pub params : List (String × String)
  pub query : String

pub record RawResponse : Type 0 where
  pub content_type : String
  pub body : List ℕ

pub data Outcome {ℓ} (A : Type ℓ) : Type ℓ where
  gives : A → Outcome A
  throws : Thrown → Outcome A

-- A route with the option `raw` has a handler of the second kind.
pub data Handler (S : Type 0) : Type 0 where
  json_handler : (Context → S → Outcome Json × S) → Handler S
  raw_handler : (Context → S → Outcome RawResponse × S) → Handler S

pub record RouteOptions : Type 0 where
  pub idempotent : Bool
  pub rate_limit : Option RateLimitRule
  pub public : Bool
  pub replay_protected : Bool

pub record Route (S : Type 0) : Type 0 where
  pub method : String
  pub pattern : List Piece
  pub roles : List String
  pub handler : Handler S
  pub options : RouteOptions

pub record Exchange (S : Type 0) : Type 0 where
  pub hits : Hits
  pub nonces : Nonces
  pub responses : List IdempotencyRow
  pub metrics : Metrics
  pub set_headers : Headers
  pub app : S

-- what the router calls of the platform and of its other modules: the pieces of a bearer token, the
-- decoding of a part of a path (`none` where it throws), the parser of JSON, the hash of a body, the
-- order of label names, the message of an error of the database, and the store of nonces
pub record Platform : Type 0 where
  pub sign : String → String
  pub bearer : String → Option String
  pub split : String → String × String
  pub read_claims : String → Answer RawClaims
  pub decode_uri : String → Option String
  pub parse_json : List ℕ → Option Json
  pub hash_body : Json → String
  pub label_before : String → String → Bool
  pub of_database : String → String
  pub claim : ℕ → String → ℕ → Nonces → Bool × Nonces

abbrev pub default_rate_limit : RateLimitRule
default_rate_limit = record { limit = 60; window_ms = 60000 }

module _ {S : Type 0} where
  -- `add`
  unfoldable pub add :
      String → String → List String → Handler S → RouteOptions → List (Route S) → List (Route S)
  add method path roles handler options routes =
      routes
      ++ record {
        method = method;
        pattern = pattern_of path;
        roles = roles;
        handler = handler;
        options = options;
      }
        ∷ []

  abbrev pub first_match :
      Route S
      → Option (List String)
      → Option (Route S × List String)
      → Option (Route S × List String)
  first_match r none rest = rest
  first_match r (some groups) rest = some (r, groups)

  -- the first route with the method whose pattern matches, and the groups of the match
  unfoldable pub find_route : List (Route S) → String → String → Option (Route S × List String)
  find_route [] method path = none
  find_route (r ∷ rs) method path =
      let rest = find_route rs method path in
      if r.method == method then first_match r (match_path r.pattern path) rest else rest

-- `corsHeaders`
unfoldable pub cors_headers : Request → Headers
cors_headers req = elim req.origin [
  | none ↦ []
  | some origin ↦
      if is_empty origin
      then []
      else ("Access-Control-Allow-Origin", origin)
        ∷ ("Access-Control-Allow-Methods", "GET,POST,PUT,DELETE,OPTIONS")
        ∷ (
          "Access-Control-Allow-Headers",
          "authorization,content-type,idempotency-key,x-request-nonce",
        )
        ∷ ("Access-Control-Max-Age", "600")
        ∷ ("Vary", "Origin")
        ∷ []
]

-- `respond`
unfoldable pub respond : ℕ → Json → Headers → Response
respond status value extra = record {
  status = status;
  headers =
      ("content-type", "application/json; charset=utf-8")
      ∷ ("cache-control", "no-store")
      ∷ ("x-content-type-options", "nosniff")
      ∷ ("x-frame-options", "DENY")
      ∷ ("referrer-policy", "no-referrer")
      ∷ ("content-security-policy", "default-src 'none'")
      ∷ extra;
  body = json value;
}

abbrev second_part : List String → String
second_part (path ∷ query ∷ _) = query
second_part _ = ""

abbrev first_part : List String → String
first_part (path ∷ _) = path
first_part [] = ""

abbrev url_of : Request → String
url_of req = elim req.url [ none ↦ "/" | some url ↦ url ]

-- `(req.url??"/").split("?")`
abbrev pub path_of : Request → String
path_of req = first_part (split_at 63 (url_of req))

abbrev pub query_of : Request → String
query_of req = second_part (split_at 63 (url_of req))

-- one decoded value for each key; a group that the match does not have is empty
unfoldable pub decode_params :
    (String → Option String) → List String → List String → Option (List (String × String))
decode_params decode [] groups = some []
decode_params decode (k ∷ ks) [] = elim (decode "") [
  | none ↦ none
  | some v ↦ elim (decode_params decode ks []) [ none ↦ none | some ps ↦ some ((k, v) ∷ ps) ]
]
decode_params decode (k ∷ ks) (w ∷ ws) = elim (decode w) [
  | none ↦ none
  | some v ↦ elim (decode_params decode ks ws) [ none ↦ none | some ps ↦ some ((k, v) ∷ ps) ]
]

abbrev pub anonymous : Caller
anonymous = record { sub = "anonymous"; roles = [] }

abbrev pub lift : {A : Type 0} → Answer A → Outcome A
lift (done a) = gives a
lift (fails e) = throws (http e)

abbrev pub is_url : String → Request → Bool
is_url u req = elim req.url [ none ↦ false | some url ↦ url == u ]

abbrev pub rate_limited : HttpError
rate_limited = http_error 429 "rate limit exceeded" "rate_limited"

abbrev pub no_route : HttpError
no_route = http_error 404 "route not found" "not_found"
