-- ===== src/Rest/Idempotency.antt =====
-- src/api/rest/idempotency.ts: `PgIdempotencyStore` over the rows of api_idempotency, and
-- `withIdempotency`. The handler of the request runs on a state `S`; the hash of the body is a parameter.
pub mod Laws
pub mod Memory
use bapc_vpn_and_digital_sec.Base.{
  ℕ, ◌+◌, String, Bool, true, false, ◌&&◌, List, [], ◌∷◌, ◌++◌, Option, none, some, ◌==◌, string_eq,
  if◌then◌else◌, ltb, any, find_where, is_empty,
}
use bapc_vpn_and_digital_sec.Json.{Json}
use bapc_vpn_and_digital_sec.Rest.Replay.{HttpError, Answer, done, fails}

pub record StoredResponse : Type 0 where
  pub status : ℕ
  pub body : Json

pub record IdempotencyRow : Type 0 where
  pub key : String
  pub actor : String
  pub request_hash : String
  pub response : StoredResponse
  pub expires_at : ℕ

abbrev pub is_current : ℕ → String → IdempotencyRow → Bool
is_current now key r = r.key == key && ltb now r.expires_at

unfoldable pub get_row : ℕ → String → List IdempotencyRow → Option IdempotencyRow
get_row now key rows = find_where (is_current now key) rows

-- `ON CONFLICT (idempotency_key) DO NOTHING`
unfoldable pub put_row : IdempotencyRow → List IdempotencyRow → List IdempotencyRow
put_row r rows = if any (λ x. x.key == r.key) rows then rows else rows ++ r ∷ []

abbrev pub key_conflict : HttpError
key_conflict = record {
  status = 409;
  message = "idempotency key reused with a different request body";
  code = "idempotency_conflict";
}

module _ {S : Type 0} (compute : S → Answer StoredResponse × S) (now : ℕ) (ttl : ℕ) where
  abbrev store_response :
      String
      → String
      → String
      → List IdempotencyRow
      → Answer StoredResponse × S
      → Answer StoredResponse × List IdempotencyRow × S
  store_response key actor hash rows (fails e, s) = (fails e, rows, s)
  store_response key actor hash rows (done r, s) = (
    done r,
    put_row
        (record {
          key = key;
          actor = actor;
          request_hash = hash;
          response = r;
          expires_at = now + ttl;
        })
        rows,
    s,
  )

  abbrev run_plain :
      List IdempotencyRow
      → Answer StoredResponse × S
      → Answer StoredResponse × List IdempotencyRow × S
  run_plain rows (a, s) = (a, rows, s)

  -- `withIdempotency` once the key is known to be there
  unfoldable pub with_key :
      String
      → String
      → String
      → List IdempotencyRow
      → S
      → Answer StoredResponse × List IdempotencyRow × S
  with_key key actor hash rows s = elim (get_row now key rows) [
    | none ↦ store_response key actor hash rows (compute s)
    | some row ↦
        if row.request_hash == hash
        then (done row.response, rows, s)
        else (fails key_conflict, rows, s)
  ]

  unfoldable pub with_idempotency :
      Option String
      → String
      → String
      → List IdempotencyRow
      → S
      → Answer StoredResponse × List IdempotencyRow × S
  unfolding with_key
  with_idempotency none actor hash rows s = run_plain rows (compute s)
  with_idempotency (some key) actor hash rows s =
      if is_empty key then run_plain rows (compute s) else with_key key actor hash rows s
