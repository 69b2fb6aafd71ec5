-- ===== src/Rest/Router/Admission.antt =====
-- What a request must pass before the state of the application can change (src/api/rest/router.ts).
use bapc_vpn_and_digital_sec.Base.{
  ℕ, String, ◌≡◌, refl, ◌∙◌, ◌⊎◌, inl, inr, Option, none, some, List, arith, number_eq, string_eq,
  Bool-cases, is_empty,
}
use bapc_vpn_and_digital_sec.Json.{Json}
use bapc_vpn_and_digital_sec.Rest.Replay.{Answer, done, fails}
use bapc_vpn_and_digital_sec.Rest.Idempotency.{
  StoredResponse, IdempotencyRow, with_key, with_idempotency,
}
use bapc_vpn_and_digital_sec.Rest.Router.{
  Context, RawResponse, Outcome, gives, throws, Handler, json_handler, raw_handler, Route, Exchange,
  Platform, cors_headers,
}
use bapc_vpn_and_digital_sec.Rest.Router.Handle.{
  answered, run, kept_rows, without_rows, raw_response, answer,
}

module _ {S : Type 0} (compute : S → Answer StoredResponse × S) (now ttl : ℕ) where
  with_key_state :
      (key actor hash : String) (rows : List IdempotencyRow) (s : S)
      → ((with_key compute now ttl key actor hash rows s).2 ≡ s)
        ⊎ ((with_key compute now ttl key actor hash rows s).2 ≡ (compute s).1)
  unfolding with_key
  with_key_state key actor hash rows s = ground arith

  with_idempotency_state :
      (key : Option String) (actor hash : String) (rows : List IdempotencyRow) (s : S)
      → ((with_idempotency compute now ttl key actor hash rows s).2 ≡ s)
        ⊎ ((with_idempotency compute now ttl key actor hash rows s).2 ≡ (compute s).1)
  unfolding with_idempotency
  with_idempotency_state none actor hash rows s = inr refl
  with_idempotency_state (some key) actor hash rows s = elim (Bool-cases (is_empty key)) [
    | inl e ↦ rw e (inr refl)
    | inr e ↦ rw e (with_key_state key actor hash rows s)
  ]

-- the state that a handler leaves
abbrev pub after_handler : {S : Type 0} → Handler S → Context → S → S
after_handler (json_handler h) context s = (h context s).1
after_handler (raw_handler h) context s = (h context s).1

module _ (env : Platform) (now : ℕ) (id : String) {S : Type 0} where
  answered_state : (r : Outcome Json × S) → (answered env now id r).1 ≡ r.1
  answered_state (gives v, s) = refl
  answered_state (throws e, s) = refl

  run_state :
      (h : Context → S → Outcome Json × S) (context : Context) (s : S)
      → (run env now id h context s).1 ≡ (h context s).1
  run_state h context s = answered_state (h context s)

  kept_state :
      (x : Exchange S) (r : Answer StoredResponse × List IdempotencyRow × S)
      (cors : List (String × String))
      → (kept_rows env now id x cors r).1.app ≡ r.2
  kept_state x (done r, rows, s) cors = refl
  kept_state x (fails e, rows, s) cors = refl

  plain_state :
      (x : Exchange S) (r : Answer StoredResponse × S) (cors : List (String × String))
      → (without_rows env now id x cors r).1.app ≡ r.1
  plain_state x (a, s) cors = refl

  raw_state :
      (x : Exchange S) (r : Outcome RawResponse × S) (cors : List (String × String))
      → (raw_response env now id x cors r).1.app ≡ r.1
  raw_state x (gives r, s) cors = refl
  raw_state x (throws e, s) cors = refl

  rows_state :
      (h : Context → S → Outcome Json × S) (context : Context) (x : Exchange S)
      (key : Option String) (actor hash : String) (cors : List (String × String))
      → let r =
          with_idempotency
            (run env now id h context)
            now
            86400000
            key
            actor
            hash
            x.responses
            x.app in
        ((kept_rows env now id x cors r).1.app ≡ x.app)
        ⊎ ((kept_rows env now id x cors r).1.app ≡ (h context x.app).1)
  rows_state h context x key actor hash cors =
      let r =
        with_idempotency (run env now id h context) now 86400000 key actor hash x.responses x.app in
      elim (with_idempotency_state (run env now id h context) now 86400000 key actor hash
        x.responses x.app) [
          | inl q ↦ inl (kept_state x r cors ∙ q)
          | inr q ↦ inr (kept_state x r cors ∙ q ∙ run_state h context x.app)
        ]

  -- the answer leaves the state of the application or runs the handler on it, once
  pub answer_state :
      (route : Route S) (context : Context) (x : Exchange S)
      → ((answer env now id route context x).1.app ≡ x.app)
        ⊎ ((answer env now id route context x).1.app ≡ after_handler route.handler context x.app)
  unfolding answer
  answer_state route context x = split route.handler refl
    where
      split :
          (h : Handler S)
          → route.handler ≡ h
          → ((answer env now id route context x).1.app ≡ x.app)
            ⊎ ((answer env now id route context x).1.app ≡ after_handler h context x.app)
      split (raw_handler h) e =
          rw e (inr (raw_state x (h context x.app) (cors_headers context.request)))
      split (json_handler h) e = elim (Bool-cases route.options.idempotent) [
        | inl i ↦
            rw (e, i)
              (rows_state h context x context.request.idempotency_key context.claims.sub
                (env.hash_body context.body) (cors_headers context.request))
        | inr i ↦
            rw (e, i)
              (inr (
                plain_state x (run env now id h context x.app) (cors_headers context.request)
                ∙ run_state h context x.app))
      ]
