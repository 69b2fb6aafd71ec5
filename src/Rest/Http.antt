-- ===== src/Rest/Http.antt =====
-- src/api/rest/errors.ts (`asHttpError`), and of src/api/rest/router.ts the request, the responses and
-- `readJson`. A request's body is the list of its chunks, each a list of bytes; `text_of` is the parse of
-- the whole body as JSON, and `message_of` the message of an error of the database.
pub mod Laws
use bapc_vpn_and_digital_sec.Base.{
  ℕ, ◌+◌, ◌/◌, String, not, ◌||◌, Option, none, some, List, [], ◌∷◌, ◌++◌, if◌then◌else◌, ltb, ◌==◌,
  number_eq, string_eq, length, includes, mentions,
}
use bapc_vpn_and_digital_sec.Json.{Json, obj, end, field, str}
use bapc_vpn_and_digital_sec.Domain.{
  Error, not_found, conflict, forbidden, validation, plain, database,
}
use bapc_vpn_and_digital_sec.Rest.Replay.{HttpError, Answer, done, fails}

-- what a handler throws: an `HttpError`, or another error with a message
pub data Thrown : Type 0 where
  http : HttpError → Thrown
  failed : Error → Thrown

abbrev pub message : (String → String) → Error → String
message of_database (not_found m) = m
message of_database (conflict m) = m
message of_database (forbidden m) = m
message of_database (validation m) = m
message of_database (plain m) = m
message of_database (database code) = of_database code

abbrev pub http_error : ℕ → String → String → HttpError
http_error status message code = record { status = status; message = message; code = code }

-- the four branches that test the message
unfoldable pub from_message : String → HttpError
from_message m =
    if mentions "authorization" m || mentions "role required" m || mentions "token" m
    then http_error 403 m "forbidden"
    else if mentions "not found" m || mentions "missing" m
    then http_error 404 m "not_found"
    else if mentions "invalid" m
        || mentions "required" m
        || mentions "malformed" m
        || mentions "stale" m
    then http_error 400 m "invalid_request"
    else http_error 500 "internal request failure" "internal_error"

unfoldable pub as_http_error : (String → String) → Thrown → HttpError
as_http_error of_database (http e) = e
as_http_error of_database (failed e) = from_message (message of_database e)

pub record Request : Type 0 where
  pub method : String
  pub url : Option String
  pub origin : Option String
  pub authorization : Option String
  pub content_type : Option String
  pub nonce : Option String
  pub idempotency_key : Option String
  pub chunks : List (List ℕ)

abbrev pub Headers : Type 0
Headers = List (String × String)

pub data Body : Type 0 where
  empty : Body
  json : Json → Body
  text : String → Body
  bytes : List ℕ → Body

pub record Response : Type 0 where
  pub status : ℕ
  pub headers : Headers
  pub body : Body

-- the loop over the chunks: the body is refused when more than a million bytes have come
unfoldable pub read_chunks : ℕ → List ℕ → List (List ℕ) → Option (List ℕ)
read_chunks size read [] = some read
read_chunks size read (c ∷ cs) =
    let rest = read_chunks (size + length c) (read ++ c) cs in
    if ltb 1000000 (size + length c) then none else rest

abbrev pub too_large : HttpError
too_large = http_error 413 "body too large" "body_too_large"

abbrev pub unsupported : HttpError
unsupported = http_error 415 "application/json required" "unsupported_media"

abbrev pub invalid_json : HttpError
invalid_json = http_error 400 "invalid JSON" "invalid_json"

abbrev or_empty : Option String → String
or_empty none = ""
or_empty (some s) = s

abbrev parsed : Option Json → Answer Json
parsed none = fails invalid_json
parsed (some j) = done j

module _ (parse_json : List ℕ → Option Json) where
  -- the statements after the loop
  unfoldable pub parse_body : Option String → List (List ℕ) → List ℕ → Answer Json
  parse_body content_type [] read = done (obj end)
  parse_body content_type (c ∷ cs) read =
      if not (includes (or_empty content_type) "application/json")
      then fails unsupported
      else parsed (parse_json read)

  unfoldable pub read_json : Request → Answer Json
  unfolding read_chunks parse_body
  read_json req =
      if req.method == "GET" || req.method == "HEAD"
      then done (obj end)
      else elim (read_chunks 0 [] req.chunks) [
        | none ↦ fails too_large
        | some read ↦ parse_body req.content_type req.chunks read
      ]
