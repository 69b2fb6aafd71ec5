-- ===== src/Rest/Router/Handle.antt =====
-- src/api/rest/router.ts, `RestRouter.handle`, statement by statement.
use bapc_vpn_and_digital_sec.Base.{
  ℕ, ◌+◌, ◌-◌, ◌/◌, String, Bool, ◌&&◌, Option, none, some, List, [], ◌∷◌, ◌++◌, if◌then◌else◌,
  ◌==◌, number_eq, string_eq, decimal, ◌<+>◌,
}
use bapc_vpn_and_digital_sec.Json.{Json, str, obj, end, field}
use bapc_vpn_and_digital_sec.Domain.{plain}
use bapc_vpn_and_digital_sec.Rest.Replay.{HttpError, Answer, done, fails, Nonces, enforce}
use bapc_vpn_and_digital_sec.Rest.Guard.{ApiClaims, verify_bearer}
use bapc_vpn_and_digital_sec.Rest.RateLimit.{RateLimitRule, RateLimitResult, Hits, check}
use bapc_vpn_and_digital_sec.Rest.Idempotency.{StoredResponse, IdempotencyRow, with_idempotency}
use bapc_vpn_and_digital_sec.Rest.Metrics.{incr_labeled, render}
use bapc_vpn_and_digital_sec.Rest.Path.{keys_of}
use bapc_vpn_and_digital_sec.Rest.Http.{
  http, failed, as_http_error, Request, Headers, empty, text, bytes, Response, read_json,
}
use bapc_vpn_and_digital_sec.Rest.Router.{
  Caller, Context, RawResponse, Outcome, gives, throws, json_handler, raw_handler, Route, Exchange,
  Platform, default_rate_limit, find_route, cors_headers, respond, path_of, query_of, decode_params,
  anonymous, lift, is_url, rate_limited, no_route,
}

abbrev pub Step : Type 0 → Type 0 → Type 0
Step S A = Exchange S → Outcome A × Exchange S

module _ {S : Type 0} where
  abbrev pub then_step :
      {A B : Type 0} → Outcome A × Exchange S → (A → Step S B) → Outcome B × Exchange S
  then_step (gives a, x) f = f a x
  then_step (throws e, x) f = (throws e, x)

  infixl 5 ◌>>=◌ ◌>>◌
  abbrev pub ◌>>=◌ : {A B : Type 0} → Step S A → (A → Step S B) → Step S B
  ◌>>=◌ m f x = then_step (m x) f

  abbrev pub ◌>>◌ : {A B : Type 0} → Step S A → Step S B → Step S B
  ◌>>◌ m k x = then_step (m x) (λ _. k)

  abbrev pub pure : {A : Type 0} → Outcome A → Step S A
  pure o x = (o, x)

abbrev caller_of : Answer ApiClaims → Outcome Caller
caller_of (fails e) = throws (http e)
caller_of (done c) = gives (record { sub = c.sub; roles = c.roles })

abbrev pub params_of : Option (List (String × String)) → Outcome (List (String × String))
params_of none = throws (failed (plain "URI malformed"))
params_of (some ps) = gives ps

abbrev of_stored : Headers → Answer StoredResponse → Outcome Response
of_stored cors (fails e) = throws (http e)
of_stored cors (done r) = gives (respond r.status r.body cors)

abbrev pub context_of : Request → Caller → Json → List (String × String) → Context
context_of req caller body params = record {
  request = req;
  claims = caller;
  body = body;
  params = params;
  query = query_of req;
}

abbrev error_body : String → HttpError → Json
error_body id e = obj (
    field "requestId" (str id)
      (field "error" (obj (field "code" (str e.code) (field "message" (str e.message) end))) end))

abbrev pub Params : Type 0
Params = List (String × String)

module _ (env : Platform) (now : ℕ) (id : String) {S : Type 0} where
  -- the claims of the caller
  unfoldable pub identify : Route S → Request → Outcome Caller
  identify route req =
      if route.options.public
      then gives anonymous
      else caller_of (
          verify_bearer env.sign env.bearer env.split env.read_claims now route.roles
            req.authorization)

  abbrev pub rule_of : Route S → RateLimitRule
  rule_of route = elim route.options.rate_limit [ none ↦ default_rate_limit | some rule ↦ rule ]

  abbrev pub limit_key : Caller → Route S → String → String
  limit_key caller route path = caller.sub <+> ":" <+> route.method <+> ":" <+> path

  -- the result of the limiter, with the hits written back; a refusal sets the header "Retry-After"
  abbrev pub limited : Exchange S → RateLimitResult × Hits → Outcome (Unit {0}) × Exchange S
  limited x (result, hits) = if result.allowed then (gives tt, record x { hits = hits }) else (
    throws (http rate_limited),
    record x {
      hits = hits;
      set_headers =
          x.set_headers ++ ("Retry-After", decimal ((result.reset_at - now + 999) / 1000)) ∷ [];
    },
  )

  unfoldable pub pass_limit : Route S → Caller → String → Step S (Unit {0})
  pass_limit route caller path x =
      limited x (check (limit_key caller route path) (rule_of route) now x.hits)

  abbrev pub claimed : Exchange S → Answer (Unit {0}) × Nonces → Outcome (Unit {0}) × Exchange S
  claimed x (answer, nonces) = (lift answer, record x { nonces = nonces })

  unfoldable pub pass_replay : Route S → Request → Step S (Unit {0})
  pass_replay route req x =
      if route.options.replay_protected
      then claimed x (enforce env.claim now req.nonce 300000 x.nonces)
      else (gives tt, x)

  abbrev pub on_app : {A : Type 0} → Exchange S → Outcome A × S → Outcome A × Exchange S
  on_app x (o, s) = (o, record x { app = s })

  abbrev pub answered : Outcome Json × S → Answer StoredResponse × S
  answered (gives value, s) = (
    done
        (record { status = 200; body = obj (field "requestId" (str id) (field "data" value end)) }),
    s,
  )
  answered (throws e, s) = (fails (as_http_error env.of_database e), s)

  -- `run`. Its error is made an `HttpError` here, which the `catch` would do next.
  abbrev pub run : (Context → S → Outcome Json × S) → Context → S → Answer StoredResponse × S
  run h context s = answered (h context s)

  abbrev pub kept_rows :
      Exchange S
      → Headers
      → Answer StoredResponse × List IdempotencyRow × S
      → Outcome Response × Exchange S
  kept_rows x cors (a, rows, s) = (of_stored cors a, record x { responses = rows; app = s })

  abbrev pub without_rows :
      Exchange S → Headers → Answer StoredResponse × S → Outcome Response × Exchange S
  without_rows x cors (a, s) = (of_stored cors a, record x { app = s })

  abbrev pub raw_response :
      Exchange S → Headers → Outcome RawResponse × S → Outcome Response × Exchange S
  raw_response x cors (throws e, s) = (throws e, record x { app = s })
  raw_response x cors (gives raw, s) = (
    gives (record {
      status = 200;
      headers = ("content-type", raw.content_type) ∷ ("cache-control", "no-store") ∷ cors;
      body = bytes raw.body;
    }),
    record x { app = s },
  )

  -- the statements after the body is read
  unfoldable pub answer : Route S → Context → Step S Response
  unfolding cors_headers
  answer route context x = elim route.handler [
    | raw_handler h ↦ raw_response x (cors_headers context.request) (h context x.app)
    | json_handler h ↦
        if route.options.idempotent
        then kept_rows x (cors_headers context.request) (
            with_idempotency (run h context) now 86400000 context.request.idempotency_key
              context.claims.sub (env.hash_body context.body) x.responses x.app)
        else without_rows x (cors_headers context.request) (run h context x.app)
  ]

  -- the statements from the one that reads the body
  unfoldable pub read_and_answer : Request → Route S → Params → Caller → Step S Response
  unfolding answer
  read_and_answer req route params caller = do
    body ← pure (lift (read_json env.parse_json req))
    answer route (context_of req caller body params)

  -- the statements after the claims are known
  unfoldable pub limit_and_answer : Request → Route S → Params → Caller → Step S Response
  unfolding read_and_answer
  limit_and_answer req route params caller = do
    pass_limit route caller (path_of req)
    pass_replay route req
    read_and_answer req route params caller

  -- the statements after the route is found
  unfoldable pub serve : Request → Route S × List String → Step S Response
  unfolding limit_and_answer
  serve req (route, groups) = do
    params ← pure (params_of (decode_params env.decode_uri (keys_of route.pattern) groups))
    caller ← pure (identify route req)
    limit_and_answer req route params caller

  abbrev count : String → List (String × String) → Exchange S → Exchange S
  count name labels x = record x { metrics = incr_labeled env.label_before name labels 1 x.metrics }

  abbrev pub counted : Request → Exchange S → Exchange S
  counted req x =
      count "bapc_http_requests_total" (("method", req.method) ∷ ("path", path_of req) ∷ []) x

  -- the body of the `try` from the lookup of the route
  unfoldable pub dispatch : List (Route S) → Request → Step S Response
  unfolding serve
  dispatch routes req x = elim (find_route routes req.method (path_of req)) [
    | none ↦ (
      throws (http no_route),
      count "bapc_http_requests_total" (("method", req.method) ∷ ("path", "unmatched") ∷ []) x,
    )
    | some found ↦ serve req found (counted req x)
  ]

  abbrev error_response : Request → HttpError → Exchange S → Response × Exchange S
  error_response req e x = (
    respond e.status (error_body id e) (x.set_headers ++ cors_headers req),
    count "bapc_http_errors_total" (("code", e.code) ∷ ("status", decimal e.status) ∷ []) x,
  )

  -- the `catch`
  abbrev pub finish : Request → Outcome Response × Exchange S → Response × Exchange S
  finish req (gives r, x) = (r, x)
  finish req (throws e, x) = error_response req (as_http_error env.of_database e) x

  -- `handle`, where the headers set on the response start empty
  unfoldable pub handle : Bool → List (Route S) → Request → Exchange S → Response × Exchange S
  unfolding dispatch
  handle expose_metrics routes req x =
      if req.method == "OPTIONS"
      then (record { status = 204; headers = cors_headers req; body = empty }, x)
      else if is_url "/healthz" req
      then (
        respond 200 (obj (field "status" (str "ok") (field "requestId" (str id) end)))
            (cors_headers req),
        x,
      )
      else if expose_metrics && is_url "/metrics" req
      then (
        record {
          status = 200;
          headers = ("content-type", "text/plain; version=0.0.4") ∷ cors_headers req;
          body = text (render x.metrics);
        },
        x,
      )
      else finish req (dispatch routes req (record x { set_headers = [] }))
