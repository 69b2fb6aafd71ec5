-- ===== src/Threat/Engine/Containment.antt =====
-- What an evaluation does to the node it names (services/threat-engine/engine.ts,
-- services/threat-engine/pg-threat-action-port.ts).
use bapc_vpn_and_digital_sec.Base.{
  ℕ, ◌+◌, ◌≤◌, String, ◌≡◌, refl, ◌∙◌, inl, inr, Bool, true, not, ◌&&◌, ◌||◌, Option, none, some,
  List, [], ◌∷◌, ◌++◌, arith, leb, ◌==◌, number_eq, string_eq, Bool-cases, Option-cases, any,
  is_some,
}
use bapc_vpn_and_digital_sec.Json.{Json}
use bapc_vpn_and_digital_sec.Domain.{MeshNode, JitGrant, Severity, info, warn, critical, emergency}
use bapc_vpn_and_digital_sec.Store.{Store, Incident}
use bapc_vpn_and_digital_sec.Store.Monad.{Result, ok, then_run}
use bapc_vpn_and_digital_sec.Store.Repositories.{
  get_node, save_grant, list_active_grants, append_event,
}
use bapc_vpn_and_digital_sec.Store.Commands.{has_pending, is_outstanding, enqueue, enqueue_for}
use bapc_vpn_and_digital_sec.Enforcer.{isolate_node}
use bapc_vpn_and_digital_sec.Store.Commands.Laws.{enqueue-ok}
use bapc_vpn_and_digital_sec.Enforcer.Laws.{isolate_node_lem}
use bapc_vpn_and_digital_sec.Threat.{ThreatSignal, score, severity_of, attributed_node}
use bapc_vpn_and_digital_sec.Threat.Ports.{
  terminate_jit, terminate_grants, terminated_for, revoke_node_certificates, revoke_certificate,
  active_certificate_for, rotate_mesh_identity, incident_event, open_incident, rotate_identity,
}
use bapc_vpn_and_digital_sec.Threat.Engine.{new_incident, respond, report, evaluate}

terminate_grants-nodes :
    (zone reason : String) (gs : List JitGrant) (s : Store)
    → (terminate_grants zone reason gs s).nodes ≡ s.nodes
unfolding terminate_grants save_grant
terminate_grants-nodes zone reason [] s = refl
terminate_grants-nodes zone reason (g ∷ gs) s =
    elim (Bool-cases (g.target_zone == zone && not g.terminated)) [
      | inl e ↦
          rw (terminate_grants, e)
            (terminate_grants-nodes zone reason gs (save_grant (terminated_for reason g) s))
      | inr e ↦ rw (terminate_grants, e) (terminate_grants-nodes zone reason gs s)
    ]

terminate_jit-nodes : (id : String) (s : Store) → (terminate_jit id s).nodes ≡ s.nodes
unfolding terminate_jit
terminate_jit-nodes id s = elim (Option-cases (get_node id s)) [
  | inl e ↦ rw (terminate_jit, e) refl
  | inr (n, e) ↦
      rw (terminate_jit, e)
        (terminate_grants-nodes n.zone "threat correlation" (list_active_grants s.now s) s)
]

get_node-terminate_jit :
    (id : String) (s : Store) → get_node id (terminate_jit id s) ≡ get_node id s
unfolding get_node
get_node-terminate_jit id s = rw (terminate_jit-nodes id s) refl

open_incident-tables :
    (i : Incident) (s : Store)
    → ((open_incident i s).nodes ≡ s.nodes) × ((open_incident i s).commands ≡ s.commands)
unfolding open_incident
open_incident-tables i s = ground arith

any-append_left :
    {A : Type 0} (p : A → Bool) (xs ys : List A) → any p xs ≡ true → any p (xs ++ ys) ≡ true
any-append_left p [] ys h = cc
any-append_left p (x ∷ xs) ys h = ground (arith, any-append_left p xs ys)

enqueue-keeps :
    (id node_id type other : String) (payload : Json) (priority : ℕ) (s : Store)
    → has_pending id other s ≡ true
    → has_pending id other (enqueue node_id type payload priority s).1 ≡ true
unfolding enqueue enqueue_for has_pending
enqueue-keeps id node_id type other payload priority s h =
    elim (Option-cases (get_node node_id s)) [
      | inl e ↦ rw (enqueue_for, e) h
      | inr (n, e) ↦
          rw (enqueue_for, e) (any-append_left (is_outstanding id other s.now) s.commands _ h)
    ]

revoke-commands :
    (id reason : String) (s : Store) → (revoke_node_certificates id reason s).commands ≡ s.commands
unfolding revoke_node_certificates revoke_certificate
revoke-commands id reason s = elim (Option-cases (active_certificate_for id s)) [
  | inl e ↦ rw (revoke_node_certificates, e) refl
  | inr (c, e) ↦ rw (revoke_node_certificates, e) refl
]

revoke-now : (id reason : String) (s : Store) → (revoke_node_certificates id reason s).now ≡ s.now
unfolding revoke_node_certificates revoke_certificate
revoke-now id reason s = elim (Option-cases (active_certificate_for id s)) [
  | inl e ↦ rw (revoke_node_certificates, e) refl
  | inr (c, e) ↦ rw (revoke_node_certificates, e) refl
]

rotate-keeps :
    (id other : String) (s : Store)
    → has_pending id other s ≡ true
    → has_pending id other (rotate_mesh_identity id s).1 ≡ true
unfolding rotate_mesh_identity
rotate-keeps id other s h =
    elim (Bool-cases (not (is_some (get_node id s)) || has_pending id rotate_identity s)) [
      | inl e ↦ rw (rotate_mesh_identity, e) h
      | inr e ↦ rw (rotate_mesh_identity, e) (enqueue-keeps id id rotate_identity other _ 200 s h)
    ]

isolated :
    (id : String) (s : Store) (n : MeshNode)
    → get_node id s ≡ some n
    → has_pending id "QUARANTINE" (isolate_node id (terminate_jit id s)).1 ≡ true
isolated id s n e = (isolate_node_lem id (terminate_jit id s)).1 n (get_node-terminate_jit id s ∙ e)

has_pending-revoke :
    (id other reason : String) (s : Store)
    → has_pending id other s ≡ true
    → has_pending id other (revoke_node_certificates id reason s) ≡ true
unfolding has_pending
has_pending-revoke id other reason s h = rw (revoke-commands id reason s, revoke-now id reason s) h

respond_critical :
    (id : String) (s : Store) (n : MeshNode)
    → get_node id s ≡ some n
    → has_pending id "QUARANTINE" (respond critical (some id) s).1 ≡ true
unfolding respond
respond_critical id s n e = isolated id s n e

respond_emergency :
    (id : String) (s : Store) (n : MeshNode)
    → get_node id s ≡ some n
    → has_pending id "QUARANTINE" (respond emergency (some id) s).1 ≡ true
unfolding respond
respond_emergency id s n e = rw (isolate_node_lem id (terminate_jit id s)).0 (
    rotate-keeps id "QUARANTINE" _
      (has_pending-revoke id "QUARANTINE" "emergency containment" _ (isolated id s n e)))

rotate-ok : (id : String) (s : Store) → (rotate_mesh_identity id s).0 ≡ ok tt
unfolding rotate_mesh_identity
rotate-ok id s = elim (Option-cases (get_node id s)) [
  | inl e ↦ rw (rotate_mesh_identity, e) refl
  | inr (n, e) ↦ elim (Bool-cases (has_pending id rotate_identity s)) [
    | inl h ↦ rw (rotate_mesh_identity, e, h) refl
    | inr h ↦ rw (rotate_mesh_identity, e, h) (enqueue-ok id rotate_identity _ 200 s n e).0
  ]
]

respond-ok :
    (severity : Severity) (node : Option String) (s : Store) → (respond severity node s).0 ≡ ok tt
unfolding respond
respond-ok info none s = refl
respond-ok warn none s = refl
respond-ok critical none s = refl
respond-ok emergency none s = refl
respond-ok info (some id) s = refl
respond-ok warn (some id) s = refl
respond-ok critical (some id) s = (isolate_node_lem id (terminate_jit id s)).0
respond-ok emergency (some id) s = rw (isolate_node_lem id (terminate_jit id s)).0 (rotate-ok id _)

-- the least score of a severity
abbrev score_floor : Severity → ℕ
score_floor info = 0
score_floor warn = 35
score_floor critical = 65
score_floor emergency = 85

too_low : {n : ℕ} → 65 ≤ n → n ≤ 35 → ⊥
too_low h l = omega arith

severe : (n : ℕ) → 65 ≤ n → 65 ≤ score_floor (severity_of n)
unfolding severity_of
severe n h = ground arith

respond-contains :
    (severity : Severity) (id : String) (s : Store) (n : MeshNode)
    → 65 ≤ score_floor severity
    → get_node id s ≡ some n
    → has_pending id "QUARANTINE" (respond severity (some id) s).1 ≡ true
respond-contains info id s n l e = elim (too_low l (omega arith)) [ ]
respond-contains warn id s n l e = elim (too_low l (omega arith)) [ ]
respond-contains critical id s n l e = respond_critical id s n e
respond-contains emergency id s n l e = respond_emergency id s n e

get_node-opened :
    (i : Incident) (id : String) (s : Store)
    → get_node id (open_incident i (record s { issued = s.issued + 1 })) ≡ get_node id s
unfolding get_node
get_node-opened i id s = rw (open_incident-tables i (record s { issued = s.issued + 1 })).0 refl

at_least : (n : ℕ) → 65 ≤ n → leb 65 n ≡ true
at_least n h = ground arith

-- the store once the incident is open
abbrev opened : List ThreatSignal → Store → Store
opened signals s =
    open_incident (new_incident (s.uuid s.issued) signals) (record s { issued = s.issued + 1 })

after :
    (signals : List ThreatSignal) (x : Result (Unit {0}) × Store)
    → x.0 ≡ ok tt
    → then_run x (λ _. report signals) ≡ report signals x.1
after signals x h = rw h refl

evaluate-report :
    (signals : List ThreatSignal) (s : Store)
    → evaluate signals s
      ≡ report signals
          (respond (severity_of (score signals)) (attributed_node signals) (opened signals s)).1
unfolding evaluate
evaluate-report signals s =
    after signals
      (respond (severity_of (score signals)) (attributed_node signals) (opened signals s))
      (respond-ok (severity_of (score signals)) (attributed_node signals) (opened signals s))

has_pending-report :
    (id type : String) (signals : List ThreatSignal) (s : Store)
    → has_pending id type (report signals s).1 ≡ has_pending id type s
unfolding has_pending report incident_event append_event
has_pending-report id type signals s = refl

contained_pending :
    (signals : List ThreatSignal) (id : String) (n : MeshNode) (s : Store)
    → attributed_node signals ≡ some id
    → get_node id s ≡ some n
    → 65 ≤ score signals
    → has_pending id "QUARANTINE" (evaluate signals s).1 ≡ true
contained_pending signals id n s a e l = rw (evaluate-report signals s) (
    has_pending-report id "QUARANTINE" signals
      (respond (severity_of (score signals)) (attributed_node signals) (opened signals s)).1
    ∙ rw a (
        respond-contains (severity_of (score signals)) id (opened signals s) n
          (severe (score signals) l)
          (get_node-opened (new_incident (s.uuid s.issued) signals) id s ∙ e)))

-- An evaluation of signals that name an enrolled node and score 65 or more succeeds: it reports their
-- score, their severity and that the node is contained, and a command that quarantines the node is then
-- pending.
pub evaluate-contained :
    (signals : List ThreatSignal) (id : String) (n : MeshNode) (s : Store)
    → attributed_node signals ≡ some id
    → get_node id s ≡ some n
    → 65 ≤ score signals
    → ((evaluate signals s).0
        ≡ ok (record {
          score = score signals;
          severity = severity_of (score signals);
          contained = true;
        }))
      × (has_pending id "QUARANTINE" (evaluate signals s).1 ≡ true)
unfolding report
evaluate-contained signals id n s a e l = (
  rw (evaluate-report signals s, a) (rw (at_least (score signals) l) refl),
  contained_pending signals id n s a e l,
)
