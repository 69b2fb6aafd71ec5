-- ===== src/Rest/Replay.antt =====
-- src/api/rest/replay-guard.ts: the stores of nonces in memory and in the table replay_nonces, and
-- `enforceReplayNonce`. The constructors of `HttpError` are those of src/api/rest/errors.ts.
pub mod Laws
use bapc_vpn_and_digital_sec.Base.{
  ℕ, ◌+◌, String, Bool, true, false, List, [], ◌∷◌, ◌++◌, Option, none, some, ◌==◌, string_eq,
  if◌then◌else◌, ltb, any, is_empty,
}

pub record HttpError : Type 0 where
  pub status : ℕ
  pub message : String
  pub code : String

pub data Answer {ℓ} (A : Type ℓ) : Type ℓ where
  done : A → Answer A
  fails : HttpError → Answer A

-- A nonce and the time at which it expires.
abbrev pub Nonces : Type 0
Nonces = List (String × ℕ)

unfoldable pub expiry_of : String → Nonces → Option ℕ
expiry_of nonce [] = none
expiry_of nonce ((k, t) ∷ m) = if k == nonce then some t else expiry_of nonce m

unfoldable pub set_expiry : String → ℕ → Nonces → Nonces
set_expiry nonce t [] = (nonce, t) ∷ []
set_expiry nonce t ((k, u) ∷ m) = if k == nonce then (k, t) ∷ m else (k, u) ∷ set_expiry nonce t m

abbrev is_live : ℕ → Option ℕ → Bool
is_live now none = false
is_live now (some t) = ltb now t

-- `MemoryReplayStore.claim`
unfoldable pub claim_memory : ℕ → String → ℕ → Nonces → Bool × Nonces
claim_memory now nonce ttl seen =
    if is_live now (expiry_of nonce seen)
    then (false, seen)
    else (true, set_expiry nonce (now + ttl) seen)

abbrev has_row : String → Nonces → Bool
has_row nonce = any (λ r. r.0 == nonce)

-- `PgReplayStore.claim`: the insert does nothing where the nonce has a row, expired or not.
unfoldable pub claim_table : ℕ → String → ℕ → Nonces → Bool × Nonces
claim_table now nonce ttl rows =
    if has_row nonce rows then (false, rows) else (true, rows ++ (nonce, now + ttl) ∷ [])

abbrev pub nonce_required : HttpError
nonce_required = record {
  status = 400;
  message = "X-Request-Nonce header is required for this operation";
  code = "nonce_required";
}

abbrev pub replay_detected : HttpError
replay_detected = record {
  status = 409;
  message = "nonce already used (possible replay)";
  code = "replay_detected";
}

abbrev pub check_claim : Bool × Nonces → Answer (Unit {0}) × Nonces
check_claim (true, rows) = (done tt, rows)
check_claim (false, rows) = (fails replay_detected, rows)

-- `enforceReplayNonce` over either store; an empty header counts as none
unfoldable pub enforce :
    (ℕ → String → ℕ → Nonces → Bool × Nonces)
    → ℕ
    → Option String
    → ℕ
    → Nonces
    → Answer (Unit {0}) × Nonces
enforce claim now none ttl rows = (fails nonce_required, rows)
enforce claim now (some nonce) ttl rows =
    if is_empty nonce then (fails nonce_required, rows) else check_claim (claim now nonce ttl rows)
