-- ===== src/Rest/Guard.antt =====
-- src/api/rest/guard.ts, `HmacBearerGuard.verify`. `sign` is the HMAC of a text under the secret,
-- `split` cuts a token at its dots, and `read_claims` decodes the claims; a claim that is absent is `none`.
-- Of claims that are signed but are no JSON it gives the error that `asHttpError` makes of the SyntaxError.
pub mod Laws
use bapc_vpn_and_digital_sec.Base.{
  ℕ, ◌*◌, String, Bool, false, not, ◌||◌, Option, none, some, List, [], ◌∷◌, if◌then◌else◌, leb,
  ◌==◌, eq_ℕ, number_eq, string_eq, any, contains, is_empty,
}
use bapc_vpn_and_digital_sec.Rest.Replay.{HttpError, Answer, done, fails}

pub record ApiClaims : Type 0 where
  pub sub : String
  pub roles : List String
  pub exp : ℕ

-- what `JSON.parse` yields of the three claims; `roles` is there if it is an array
pub record RawClaims : Type 0 where
  pub sub : String
  pub roles : Option (List String)
  pub exp : ℕ

abbrev pub unauthorized : String → HttpError
unauthorized message = record { status = 401; message = message; code = "unauthorized" }

abbrev pub role_missing : HttpError
role_missing = record { status = 403; message = "required role missing"; code = "forbidden" }

-- `requiredRoles.length&&!requiredRoles.some(r=>claims.roles.includes(r))`
abbrev pub lacks_role : List String → List String → Bool
lacks_role [] roles = false
lacks_role (r ∷ rs) roles = not (any (contains roles) (r ∷ rs))

-- the last three tests of `verify`
unfoldable pub accept_claims : ℕ → List String → RawClaims → Answer ApiClaims
accept_claims now required c = elim c.roles [
  | none ↦ fails (unauthorized "invalid bearer claims")
  | some roles ↦
      if is_empty c.sub || eq_ℕ c.exp 0
      then fails (unauthorized "invalid bearer claims")
      else if leb (c.exp * 1000) now
      then fails (unauthorized "expired bearer token")
      else if lacks_role required roles
      then fails role_missing
      else done (record { sub = c.sub; roles = roles; exp = c.exp })
]

abbrev pub then_accept : ℕ → List String → Answer RawClaims → Answer ApiClaims
then_accept now required (fails e) = fails e
then_accept now required (done c) = accept_claims now required c

module _ (sign : String → String) (bearer : String → Option String)
    (split : String → String × String) (read_claims : String → Answer RawClaims) where
  -- `bearer header` is the text after "Bearer ", where the header starts so; a part that the token
  -- does not have is empty
  unfoldable pub verify_token : ℕ → List String → String × String → Answer ApiClaims
  unfolding accept_claims
  verify_token now required (encoded, signature) =
      if is_empty encoded || is_empty signature
      then fails (unauthorized "malformed bearer token")
      else if not (sign encoded == signature)
      then fails (unauthorized "invalid bearer token")
      else then_accept now required (read_claims encoded)

  abbrev pub token_of : Option String → Option String
  token_of none = none
  token_of (some header) = bearer header

  unfoldable pub verify_bearer : ℕ → List String → Option String → Answer ApiClaims
  unfolding verify_token
  verify_bearer now required header = elim (token_of header) [
    | none ↦ fails (unauthorized "missing bearer token")
    | some token ↦ verify_token now required (split token)
  ]
