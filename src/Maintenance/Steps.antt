-- ===== src/Maintenance/Steps.antt =====
-- What the checks of drift and of the keys' ages (src/application/node-reconciliation.ts and
-- src/application/key-rotation-scheduler.ts) keep: every property that only reads the audit table.
use bapc_vpn_and_digital_sec.Base.{
  ℕ, String, ◌≡◌, refl, inl, inr, Bool, true, false, List, [], ◌∷◌, Option, none, some, string_eq,
  number_eq, Option-cases, if◌then◌else◌,
}
use bapc_vpn_and_digital_sec.Json.{Json}
use bapc_vpn_and_digital_sec.Domain.{MeshNode, NetworkPolicy}
use bapc_vpn_and_digital_sec.Store.{Store, DesiredState}
use bapc_vpn_and_digital_sec.Store.Monad.{M, Result, ok, err, then_run, return, or_throw, for_each}
use bapc_vpn_and_digital_sec.Store.Repositories.{get_node}
use bapc_vpn_and_digital_sec.Store.Commands.{enqueue, enqueue_for}
use bapc_vpn_and_digital_sec.Store.Desired.{get_desired}
use bapc_vpn_and_digital_sec.Mesh.Topology.{configure_node, reconcile}
use bapc_vpn_and_digital_sec.Reconciliation.{
  DriftDimension, DriftFinding, correct_if, check_routes, check_dns, check_kill_switch,
  check_peer_topology, check_policy_version, check_dimensions, check_node, check_states, check_all,
}
use bapc_vpn_and_digital_sec.KeyRotation.{request_rotation, run}

module _ (P : Store → Type 0) where
  -- The step keeps the property, whether it succeeds or fails.
  abbrev pub Preserves : {A : Type 0} → M A → Type 0
  Preserves m = (s : Store) → P s → P (m s).1

module _ (P : Store → Type 0) where
  pub then_run-Preserves :
      {A B : Type 0} (r : Result A × Store) (f : A → M B)
      → P r.1
      → ((a : A) → Preserves P (f a))
      → P (then_run r f).1
  then_run-Preserves (ok a, s) f h k = k a s h
  then_run-Preserves (err e, s) f h k = h

  pub bind-Preserves :
      {A B : Type 0} (m : M A) (f : A → M B)
      → Preserves P m
      → ((a : A) → Preserves P (f a))
      → Preserves P (λ s. then_run (m s) f)
  bind-Preserves m f h k s p = then_run-Preserves (m s) f (h s p) k

  pub for_each-Preserves :
      {A : Type 0} (xs : List A) (f : A → M (Unit {0}))
      → ((a : A) → Preserves P (f a))
      → Preserves P (for_each xs f)
  for_each-Preserves [] f k s h = h
  for_each-Preserves (x ∷ xs) f k s h =
      then_run-Preserves (f x s) (λ _. for_each xs f) (k x s h) (λ _. for_each-Preserves xs f k)

  correct_if-Preserves :
      (b : Bool) (d : DriftDimension) (by : String) (send : M (Unit {0}))
      → Preserves P send
      → Preserves P (correct_if b d by send)
  correct_if-Preserves true d by send k s h = h
  correct_if-Preserves false d by send k s h = then_run-Preserves (send s) _ (k s h) (λ _ t g. g)

  or_throw-Preserves : {A : Type 0} (o : Option A) (e : _) → Preserves P (or_throw {A = A} o e)
  or_throw-Preserves none e s h = h
  or_throw-Preserves (some a) e s h = h

-- a property that reads only the audit table
module _ (P : Store → Type 0)
    (of_audits : (s t : Store)
      → t.audits ≡ s.audits
      → t.audit_identity ≡ s.audit_identity
      → P s
      → P t) where
  enqueue-Preserves :
      (id type : String) (payload : Json) (priority : ℕ)
      → Preserves P (enqueue id type payload priority)
  unfolding enqueue enqueue_for
  enqueue-Preserves id type payload priority s h = elim (Option-cases (get_node id s)) [
    | inl e ↦ rw (enqueue_for, e) h
    | inr (n, e) ↦ rw (enqueue_for, e) (of_audits s _ refl refl h)
  ]

  corrected-Preserves :
      (b : Store → Bool) (d : DriftDimension) (by : String) (send : Store → M (Unit {0}))
      → ((s : Store) → Preserves P (send s))
      → Preserves P (λ s. correct_if (b s) d by (send s) s)
  corrected-Preserves b d by send k s h = correct_if-Preserves P (b s) d by (send s) (k s) s h

  check_routes-Preserves :
      (node : MeshNode) (desired : DesiredState) (policies : List NetworkPolicy)
      → Preserves P (check_routes node desired policies)
  unfolding check_routes
  check_routes-Preserves node desired policies =
      corrected-Preserves _ _ _ _ (λ s. enqueue-Preserves _ _ _ _)

  check_dns-Preserves :
      (node : MeshNode) (desired : DesiredState) → Preserves P (check_dns node desired)
  unfolding check_dns
  check_dns-Preserves node desired = corrected-Preserves _ _ _ _ (λ s. enqueue-Preserves _ _ _ _)

  check_kill_switch-Preserves :
      (node : MeshNode) (desired : DesiredState) → Preserves P (check_kill_switch node desired)
  unfolding check_kill_switch
  check_kill_switch-Preserves node desired =
      corrected-Preserves _ _ _ _ (λ s. enqueue-Preserves _ _ _ _)

  reconcile-Preserves :
      (hash : Json → String) (node : MeshNode) (all : List MeshNode)
      → Preserves P (reconcile hash node all none)
  unfolding reconcile configure_node
  reconcile-Preserves hash node all s =
      bind-Preserves P (enqueue node.id "APPLY_PEERS" _ 100) _ (enqueue-Preserves _ _ _ _)
        (λ _ t g. g) s

  check_peer_topology-Preserves :
      (hash : Json → String) (node : MeshNode) (all : List MeshNode)
      → Preserves P (check_peer_topology hash node all)
  unfolding check_peer_topology
  check_peer_topology-Preserves hash node all = corrected-Preserves _ _ _ _ (λ s.
      bind-Preserves P (reconcile hash node all none) _ (reconcile-Preserves hash node all)
        (λ _ t g. g))

  check_policy_version-Preserves :
      (hash : Json → String) (node : MeshNode) (policies : List NetworkPolicy)
      → Preserves P (check_policy_version hash node policies)
  unfolding check_policy_version
  check_policy_version-Preserves hash node policies =
      corrected-Preserves _ _ _ (λ s. enqueue node.id "APPLY_FIREWALL" _ 150)
        (λ s. enqueue-Preserves _ _ _ _)

  check_dimensions-Preserves :
      (hash : Json → String) (node : MeshNode) (desired : DesiredState)
      → Preserves P (check_dimensions hash node desired)
  unfolding check_dimensions
  check_dimensions-Preserves hash node desired s =
      bind-Preserves P (check_routes node desired _) _ (check_routes-Preserves node desired _)
        (λ a. bind-Preserves P (check_dns node desired) _ (check_dns-Preserves node desired) (λ b.
          bind-Preserves P (check_kill_switch node desired) _
            (check_kill_switch-Preserves node desired)
            (λ c.
              bind-Preserves P (check_peer_topology hash node _) _
                (check_peer_topology-Preserves hash node _)
                (λ d.
                  bind-Preserves P (check_policy_version hash node _) _
                    (check_policy_version-Preserves hash node _) (λ e t g. g)))))
        s

  check_node-Preserves : (hash : Json → String) (id : String) → Preserves P (check_node hash id)
  unfolding check_node
  check_node-Preserves hash id s =
      bind-Preserves P (or_throw (get_node id s) _) _ (or_throw-Preserves P (get_node id s) _)
        (λ node t. go node (get_desired id t) t) s
    where
      go :
          (node : MeshNode) (desired : Option DesiredState)
          → Preserves P {A = List DriftFinding}
              (elim desired [ none ↦ return [] | some d ↦ check_dimensions hash node d ])
      go node none t g = g
      go node (some d) t g = check_dimensions-Preserves hash node d t g

  check_states-Preserves :
      (hash : Json → String) (ds : List DesiredState) → Preserves P (check_states hash ds)
  unfolding check_states
  check_states-Preserves hash [] = λ s h. h
  check_states-Preserves hash (d ∷ ds) =
      bind-Preserves P (check_node hash d.node_id) _ (check_node-Preserves hash d.node_id) (λ _.
        bind-Preserves P (check_states hash ds) _ (check_states-Preserves hash ds) (λ _ t g. g))

  pub check_all-Preserves : (hash : Json → String) → Preserves P (check_all hash)
  unfolding check_all
  check_all-Preserves hash s = check_states-Preserves hash s.desired s

  if-Preserves :
      (b : Bool) (s : Store) (r : Result (Unit {0}) × Store)
      → P s
      → P r.1
      → P (if b then (ok tt, s) else r).1
  if-Preserves true s r h k = h
  if-Preserves false s r h k = k

  request_rotation-Preserves : (id : String) → Preserves P (request_rotation id)
  unfolding request_rotation
  request_rotation-Preserves id s h = if-Preserves _ s _ h (enqueue-Preserves id _ _ 200 s h)

  pub run-Preserves : (days : ℕ) → Preserves P (run days)
  unfolding run
  run-Preserves days s =
      bind-Preserves P (for_each _ request_rotation) _
        (for_each-Preserves P _ request_rotation request_rotation-Preserves) (λ _ t g. g) s
