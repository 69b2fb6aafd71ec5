-- ===== src/Api/Routes/Laws.antt =====
-- Who can change what the REST interface serves (src/runtime/production-server.ts).
use bapc_vpn_and_digital_sec.Base.{
  ℕ, ◌*◌, ◌<◌, String, ◌≡◌, refl, ◌∙◌, ◌⊎◌, inl, inr, Bool, true, false, not, ◌&&◌, Option, none,
  some, List, [], ◌∷◌, ◌++◌, arith, ◌==◌, number_eq, string_eq, Bool-cases, all, All,
}
use mathlib.Core.Path.{subst}
use mathlib.Core.Option.{some-injective}
use bapc_vpn_and_digital_sec.Rest.Replay.{done}
use bapc_vpn_and_digital_sec.Rest.Guard.{ApiClaims, lacks_role, verify_bearer}
use bapc_vpn_and_digital_sec.Rest.Guard.Laws.{verify_bearer_sound}
use bapc_vpn_and_digital_sec.Rest.Path.{match_path}
use bapc_vpn_and_digital_sec.Rest.Http.{Request}
use bapc_vpn_and_digital_sec.Rest.Router.{
  Caller, Context, gives, throws, Route, Exchange, Platform, first_match, find_route, path_of,
}
use bapc_vpn_and_digital_sec.Rest.Router.Handle.{identify, handle}
use bapc_vpn_and_digital_sec.Rest.Router.Admission.{after_handler}
use bapc_vpn_and_digital_sec.Rest.Router.Guards.{Answer-cases, handle_guarded}
use bapc_vpn_and_digital_sec.Api.{World}
use bapc_vpn_and_digital_sec.Api.Routes.{
  Services, operator_routes, document_routes, node_routes, agent_routes, fleet_routes, routes,
}

abbrev pub has_roles : List String → Bool
has_roles [] = false
has_roles (r ∷ rs) = true

abbrev pub asks_role : {S : Type 0} → Route S → Bool
asks_role r = not r.options.public && has_roles r.roles

module _ {S : Type 0} where
  -- A route is guarded if it asks for a role, or if its handler reads only.
  abbrev IsGuarded : Route S → Type 0
  IsGuarded r =
      (asks_role r ≡ true) ⊎ ((context : Context) (s : S) → after_handler r.handler context s ≡ s)

  first_match-holds :
      (P : Route S → Type 0) (r : Route S) (m : Option (List String))
      (rest : Option (Route S × List String)) (found : Route S × List String)
      → P r
      → (rest ≡ some found → P found.0)
      → first_match r m rest ≡ some found
      → P found.0
  first_match-holds P r none rest found p q e = q e
  first_match-holds P r (some groups) rest found p q e =
      let same : (r, groups) ≡ found = some-injective (r, groups) found e in
      subst (λ f. P f.0) same p

  find_route_sound :
      (P : Route S → Type 0) (rs : List (Route S)) (method path : String)
      (found : Route S × List String)
      → All P rs
      → find_route rs method path ≡ some found
      → P found.0
  unfolding find_route
  find_route_sound P [] method path found a e = cc
  find_route_sound P (r ∷ rs) method path found a e = elim (Bool-cases (r.method == method)) [
    | inl h ↦
        first_match-holds P r (match_path r.pattern path) (find_route rs method path) found a.0
          (find_route_sound P rs method path found a.1) (rw h at e)
    | inr h ↦ find_route_sound P rs method path found a.1 (rw h at e)
  ]

  IsGuarded-closed : (rs : List (Route S)) → all asks_role rs ≡ true → All IsGuarded rs
  IsGuarded-closed [] h = tt
  IsGuarded-closed (r ∷ rs) h = (inl (ground arith), IsGuarded-closed rs (ground arith))

All-append : {A : Type 0} (P : A → Type 0) (xs ys : List A) → All P xs → All P ys → All P (xs ++ ys)
All-append P [] ys a b = b
All-append P (x ∷ xs) ys a b = (a.0, All-append P xs ys a.1 b)

module _ (env : Services) where
  routes-IsGuarded : All IsGuarded (routes env)
  unfolding routes
  routes-IsGuarded =
      let fleet = IsGuarded-closed (fleet_routes env) refl in
      let agents =
        All-append IsGuarded (agent_routes env) (fleet_routes env)
          (IsGuarded-closed (agent_routes env) refl) fleet in
      let nodes =
        All-append IsGuarded (node_routes env) (agent_routes env ++ fleet_routes env)
          (IsGuarded-closed (node_routes env) refl) agents in
      let documents =
        All-append IsGuarded (document_routes env)
          (node_routes env ++ agent_routes env ++ fleet_routes env)
          (inr (λ c s. refl), (inr (λ c s. refl), tt)) nodes in
      let operators =
        All-append IsGuarded (operator_routes env)
          (document_routes env ++ node_routes env ++ agent_routes env ++ fleet_routes env)
          (IsGuarded-closed (operator_routes env) refl) documents in
      (inr (λ c s. refl), (inr (λ c s. refl), operators))

  identify_claims :
      (p : Platform) (now : ℕ) (id : String) (route : Route World) (req : Request) (caller : Caller)
      → asks_role route ≡ true
      → identify p now id route req ≡ gives caller
      → (claims : ApiClaims) × (verify_bearer p.sign p.bearer p.split p.read_claims now route.roles
            req.authorization
          ≡ done claims)
  unfolding identify
  identify_claims p now id route req caller a e =
      let closed : route.options.public ≡ false = ground arith in
      elim (Answer-cases
        (verify_bearer p.sign p.bearer p.split p.read_claims now route.roles req.authorization)) [
          | inl (f, h) ↦ let stuck : throws _ ≡ gives caller = rw (closed, h) at e in cc
          | inr done_ ↦ done_
        ]

  -- Whatever a request to the REST interface is, it leaves the whole state of the application, or it was
  -- for a route that asks for roles and carried a bearer token which is accepted for them: it has not
  -- expired and has one of those roles. The two public documents and the root page only read.
  pub routes_guarded :
      (p : Platform) (now : ℕ) (id : String) (expose_metrics : Bool) (req : Request)
      (x : Exchange World)
      → ((handle p now id expose_metrics (routes env) req x).1.app ≡ x.app)
        ⊎ ((route : Route World) × (groups : List String) × (claims : ApiClaims) × (find_route
                (routes env)
                req.method
                (path_of req)
              ≡ some (route, groups))
            × (asks_role route ≡ true)
            × (verify_bearer p.sign p.bearer p.split p.read_claims now route.roles req.authorization
                ≡ done claims)
            × (now < claims.exp * 1000)
            × (lacks_role route.roles claims.roles ≡ false))
  routes_guarded p now id expose_metrics req x =
      elim (handle_guarded p now id expose_metrics (routes env) req x) [
        | inl h ↦ inl h
        | inr ((route, groups), found, admitted) ↦
            let (params, caller, decoded, identified, within, nonce, (body, read, after)) =
              admitted in
            elim (find_route_sound IsGuarded (routes env) req.method (path_of req) (route, groups)
              routes-IsGuarded found) [
                | inr reads ↦ inl (after ∙ reads _ _)
                | inl asks ↦
                    let (claims, passed) =
                      identify_claims p now id route req caller asks identified in
                    let (fresh, role) =
                      verify_bearer_sound p.sign p.bearer p.split p.read_claims now route.roles
                        req.authorization claims passed in
                    inr (route, groups, claims, found, asks, passed, fresh, role)
              ]
      ]
