-- ===== src/Rest/Router/Guards.antt =====
-- What a request must pass before the state of the application can change (src/api/rest/router.ts).
use bapc_vpn_and_digital_sec.Base.{
  ℕ, String, ◌≡◌, refl, ap, ◌∙◌, ◌⊎◌, inl, inr, Bool, true, some, List, [], arith, number_eq,
  string_eq, Bool-cases, Option-cases,
}
use bapc_vpn_and_digital_sec.Json.{Json}
use bapc_vpn_and_digital_sec.Rest.Replay.{HttpError, Answer, done, fails, enforce}
use bapc_vpn_and_digital_sec.Rest.RateLimit.{check}
use bapc_vpn_and_digital_sec.Rest.Path.{keys_of}
use bapc_vpn_and_digital_sec.Rest.Http.{Thrown, Request, Response, read_json}
use bapc_vpn_and_digital_sec.Rest.Router.{
  Caller, Outcome, gives, throws, Route, Exchange, Platform, find_route, path_of, decode_params,
}
use bapc_vpn_and_digital_sec.Rest.Router.Handle.{
  params_of, identify, rule_of, limit_key, pass_limit, pass_replay, read_and_answer,
  limit_and_answer, Params, context_of, serve, counted, dispatch, finish, handle,
}
use bapc_vpn_and_digital_sec.Rest.Router.Admission.{after_handler, answer_state}

Outcome-cases :
    {A : Type 0} (o : Outcome A) → ((e : Thrown) × (o ≡ throws e)) ⊎ ((a : A) × (o ≡ gives a))
Outcome-cases (throws e) = inl (e, refl)
Outcome-cases (gives a) = inr (a, refl)

pub Answer-cases :
    {A : Type 0} (o : Answer A) → ((e : HttpError) × (o ≡ fails e)) ⊎ ((a : A) × (o ≡ done a))
Answer-cases (fails e) = inl (e, refl)
Answer-cases (done a) = inr (a, refl)

module _ (env : Platform) (now : ℕ) (id : String) {S : Type 0} where
  -- what `read_and_answer` does to the state, from an exchange `y` with the state `s`
  abbrev pub Answered : Request → Route S → Params → Caller → S → S → Type 0
  Answered req route params caller s after =
      (body : Json) × (read_json env.parse_json req ≡ done body)
      × (after ≡ after_handler route.handler (context_of req caller body params) s)

  read_state :
      (req : Request) (route : Route S) (params : Params) (caller : Caller) (y : Exchange S)
      → let after = (read_and_answer env now id req route params caller y).1.app in
        (after ≡ y.app) ⊎ Answered req route params caller y.app after
  unfolding read_and_answer
  read_state req route params caller y = elim (Answer-cases (read_json env.parse_json req)) [
    | inl (e, r) ↦ rw r (inl refl)
    | inr (body, r) ↦ elim (answer_state env now id route (context_of req caller body params) y) [
      | inl h ↦ rw r (inl h)
      | inr h ↦ rw r (inr (body, refl, h))
    ]
  ]

  -- the nonce is accepted where the route asks for one
  abbrev pub NonceAccepted : Request → Route S → Exchange S → Type 0
  NonceAccepted req route x =
      route.options.replay_protected ≡ true
      → (enforce env.claim now req.nonce 300000 x.nonces).0 ≡ done tt

  abbrev pub is_within_limit : Request → Route S → Caller → Exchange S → Bool
  is_within_limit req route caller x =
      (check (limit_key env now id caller route (path_of req)) (rule_of env now id route) now
        x.hits).0.allowed

  replay_state :
      (req : Request) (route : Route S) (x : Exchange S)
      → ((pass_replay env now id route req x).1.app ≡ x.app)
        × (((e : Thrown) × ((pass_replay env now id route req x).0 ≡ throws e))
            ⊎ (((pass_replay env now id route req x).0 ≡ gives tt) × NonceAccepted req route x))
  unfolding pass_replay
  replay_state req route x = elim (Bool-cases route.options.replay_protected) [
    | inr e ↦ rw e (refl, inr (refl, λ h. cc))
    | inl e ↦ elim (Answer-cases (enforce env.claim now req.nonce 300000 x.nonces).0) [
      | inl (f, h) ↦ rw (e, h) (refl, inl (_, refl))
      | inr (tt, h) ↦ rw (e, h) (refl, inr (refl, λ _. refl))
    ]
  ]

  -- the exchange once the hit is recorded
  abbrev pub charged : Request → Route S → Caller → Exchange S → Exchange S
  charged req route caller x = record x {
    hits =
        (check (limit_key env now id caller route (path_of req)) (rule_of env now id route) now
          x.hits).1;
  }

  limit_state :
      (req : Request) (route : Route S) (params : Params) (caller : Caller) (x : Exchange S)
      → let after = (limit_and_answer env now id req route params caller x).1.app in
        (after ≡ x.app)
        ⊎ ((is_within_limit req route caller x ≡ true)
            × NonceAccepted req route x
            × Answered req route params caller x.app after)
  unfolding limit_and_answer pass_limit
  limit_state req route params caller x = elim (Bool-cases (is_within_limit req route caller x)) [
    | inr e ↦ rw e (inl refl)
    | inl e ↦
        let y = charged req route caller x in
        let (kept, passed) = replay_state req route y in
        elim passed [
          | inl (f, h) ↦ rw (e, h) (inl kept)
          | inr (h, nonce) ↦
              elim (read_state req route params caller (pass_replay env now id route req y).1) [
                | inl same ↦ rw (e, h) (inl (same ∙ kept))
                | inr answered ↦ rw (e, h) (inr (refl, nonce, rw kept at answered))
              ]
        ]
  ]

  -- The request passed every guard of the route, and `after` is what the handler leaves.
  abbrev pub Admitted : Request → Exchange S → Route S × List String → S → Type 0
  Admitted req x (route, groups) after =
      (params : Params) × (caller : Caller) × (params_of
          (decode_params env.decode_uri (keys_of route.pattern) groups)
        ≡ gives params)
      × (identify env now id route req ≡ gives caller)
      × (is_within_limit req route caller x ≡ true)
      × NonceAccepted req route x
      × Answered req route params caller x.app after

  serve_state :
      (req : Request) (x : Exchange S) (route : Route S) (groups : List String)
      → let after = (serve env now id req (route, groups) x).1.app in
        (after ≡ x.app) ⊎ Admitted req x (route, groups) after
  unfolding serve
  serve_state req x route groups =
      elim (Outcome-cases
        (params_of (decode_params env.decode_uri (keys_of route.pattern) groups))) [
          | inl (e, p) ↦ rw p (inl refl)
          | inr (params, p) ↦ elim (Outcome-cases (identify env now id route req)) [
            | inl (e, q) ↦ rw (p, q) (inl refl)
            | inr (caller, q) ↦ elim (limit_state req route params caller x) [
              | inl h ↦ rw (p, q) (inl h)
              | inr h ↦ rw (p, q) (inr (params, caller, refl, refl, h.0, h.1, h.2))
            ]
          ]
        ]

  finish_state :
      (req : Request) (r : Outcome Response × Exchange S)
      → (finish env now id req r).1.app ≡ r.1.app
  finish_state req (gives r, x) = refl
  finish_state req (throws e, x) = refl

  dispatch_state :
      (routes : List (Route S)) (req : Request) (x : Exchange S)
      → let after = (dispatch env now id routes req x).1.app in
        (after ≡ x.app)
        ⊎ ((found : Route S × List String) × (find_route routes req.method (path_of req)
              ≡ some found)
            × Admitted req x found after)
  unfolding dispatch
  dispatch_state routes req x = elim (Option-cases (find_route routes req.method (path_of req))) [
    | inl e ↦ rw (e, dispatch) (inl refl)
    | inr ((route, groups), e) ↦ elim (serve_state req (counted env now id req x) route groups) [
      | inl h ↦ rw (e, dispatch) (inl h)
      | inr h ↦ rw (e, dispatch) (inr ((route, groups), refl, h))
    ]
  ]

  handle_cases :
      (expose_metrics : Bool) (routes : List (Route S)) (req : Request) (x : Exchange S)
      → ((handle env now id expose_metrics routes req x).1.app ≡ x.app)
        ⊎ (handle env now id expose_metrics routes req x
            ≡ finish env now id req
                (dispatch env now id routes req (record x { set_headers = [] })))
  unfolding handle
  handle_cases expose_metrics routes req x = ground arith

  -- A request changes the state of the application at most as follows: it is for a registered route with
  -- its method and path, its parameters decode, it is identified as the route asks (with one of the
  -- route's roles, or the route is public), it is within the rate limit of that caller, its nonce is
  -- accepted where the route asks for one, its body is read, and then the state is what the route's
  -- handler leaves for that caller, that body and those parameters, run once.
  pub handle_guarded :
      (expose_metrics : Bool) (routes : List (Route S)) (req : Request) (x : Exchange S)
      → let after = (handle env now id expose_metrics routes req x).1.app in
        (after ≡ x.app)
        ⊎ ((found : Route S × List String) × (find_route routes req.method (path_of req)
              ≡ some found)
            × Admitted req x found after)
  unfolding handle
  handle_guarded expose_metrics routes req x =
      let fresh = record x { set_headers = [] } in
      elim (handle_cases expose_metrics routes req x) [
        | inl h ↦ inl h
        | inr h ↦
            rw (ap (λ r. r.1.app) h ∙ finish_state req (dispatch env now id routes req fresh))
              (dispatch_state routes req fresh)
      ]
