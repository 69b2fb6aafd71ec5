-- ===== src/Rest/Guard/Laws.antt =====
-- What a token must have to pass (src/api/rest/guard.ts).
use bapc_vpn_and_digital_sec.Base.{
  ℕ, ◌*◌, ◌<◌, String, ◌≡◌, refl, inl, inr, false, Option, none, some, List, arith, number_eq,
  string_eq, eq_of_==, Option-cases,
}
use bapc_vpn_and_digital_sec.Rest.Replay.{Answer, done, fails}
use bapc_vpn_and_digital_sec.Rest.Guard.{
  ApiClaims, RawClaims, lacks_role, then_accept, accept_claims, verify_token, token_of,
  verify_bearer,
}

refused :
    (now : ℕ) (required : List String) (c : RawClaims) (claims : ApiClaims)
    → c.roles ≡ none
    → accept_claims now required c ≡ done claims
    → (now < claims.exp * 1000) × (lacks_role required claims.roles ≡ false) × (claims.sub ≡ c.sub)
unfolding accept_claims
refused now required c claims e h = ground arith

passed :
    (now : ℕ) (required : List String) (c : RawClaims) (claims : ApiClaims) (roles : List String)
    → c.roles ≡ some roles
    → accept_claims now required c ≡ done claims
    → (now < claims.exp * 1000) × (lacks_role required claims.roles ≡ false) × (claims.sub ≡ c.sub)
unfolding accept_claims
passed now required c claims roles e h = ground arith

accept_claims-done :
    (now : ℕ) (required : List String) (c : RawClaims) (claims : ApiClaims)
    → accept_claims now required c ≡ done claims
    → (now < claims.exp * 1000) × (lacks_role required claims.roles ≡ false) × (claims.sub ≡ c.sub)
unfolding accept_claims
accept_claims-done now required c claims h = elim (Option-cases c.roles) [
  | inl e ↦ refused now required c claims e h
  | inr (roles, e) ↦ passed now required c claims roles e h
]

then_accept-done :
    (now : ℕ) (required : List String) (r : Answer RawClaims) (claims : ApiClaims)
    → then_accept now required r ≡ done claims
    → (c : RawClaims) × (r ≡ done c)
      × ((now < claims.exp * 1000)
          × (lacks_role required claims.roles ≡ false)
          × (claims.sub ≡ c.sub))
then_accept-done now required (fails e) claims h = cc
then_accept-done now required (done c) claims h =
    (c, refl, accept_claims-done now required c claims h)

module _ (sign : String → String) (bearer : String → Option String)
    (split : String → String × String) (read_claims : String → Answer RawClaims) where
  -- A token that is accepted carries the signature of its claims, which are read, has not expired, and where
  -- roles are required its claims have one of them.
  pub verify_token_sound :
      (now : ℕ) (required : List String) (encoded signature : String) (claims : ApiClaims)
      → verify_token sign bearer split read_claims now required (encoded, signature) ≡ done claims
      → (sign encoded ≡ signature)
        × ((c : RawClaims) × (read_claims encoded ≡ done c) × (claims.sub ≡ c.sub))
        × (now < claims.exp * 1000)
        × (lacks_role required claims.roles ≡ false)
  unfolding verify_token
  verify_token_sound now required encoded signature claims h =
      let (c, e, rest) =
        then_accept-done now required (read_claims encoded) claims (ground arith) in
      (ground (arith, eq_of_== (sign encoded) signature), (c, e, rest.2), rest.0, rest.1)

  -- A header that is accepted has a token that does not expire before now, with one of the roles that are
  -- required.
  pub verify_bearer_sound :
      (now : ℕ) (required : List String) (header : Option String) (claims : ApiClaims)
      → verify_bearer sign bearer split read_claims now required header ≡ done claims
      → (now < claims.exp * 1000) × (lacks_role required claims.roles ≡ false)
  unfolding verify_bearer
  verify_bearer_sound now required header claims h =
      elim (Option-cases (token_of sign bearer split read_claims header)) [
        | inl e ↦ let stuck : fails _ ≡ done claims = rw (e, verify_bearer) at h in cc
        | inr (token, e) ↦
            let rest =
              verify_token_sound now required (split token).0 (split token).1 claims
                (rw (e, verify_bearer) at h) in
            (rest.2, rest.3)
      ]
