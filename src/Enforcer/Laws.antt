-- ===== src/Enforcer/Laws.antt =====
-- What the enforcement point queues (src/infrastructure/pg-policy-enforcer.ts).
use bapc_vpn_and_digital_sec.Base.{
  String, ◌≡◌, refl, inl, inr, true, Option, none, some, List, number_eq, string_eq, Option-cases,
}
use bapc_vpn_and_digital_sec.Domain.{NetworkPolicy, MeshNode, Error}
use bapc_vpn_and_digital_sec.Store.{Store}
use bapc_vpn_and_digital_sec.Store.Monad.{ok, err}
use bapc_vpn_and_digital_sec.Store.Repositories.{get_node}
use bapc_vpn_and_digital_sec.Store.Commands.{enqueue, enqueue_for, has_pending}
use bapc_vpn_and_digital_sec.Store.Commands.Laws.{enqueue-has_pending, enqueue-ok}
use bapc_vpn_and_digital_sec.Policy.Compiler.{PolicyIrRule, compile}
use bapc_vpn_and_digital_sec.Enforcer.{stage, if_enrolled, isolate_node}

total : (node_id : String) (s : Store) → (isolate_node node_id s).0 ≡ ok tt
unfolding isolate_node
total node_id s = elim (Option-cases (get_node node_id s)) [
  | inl e ↦ rw (isolate_node, if_enrolled, e) refl
  | inr (n, e) ↦ rw (isolate_node, if_enrolled, e) (enqueue-ok node_id _ _ 200 s n e).0
]

pub isolate_node-devices :
    (node_id : String) (s : Store) → (isolate_node node_id s).1.devices ≡ s.devices
unfolding isolate_node enqueue enqueue_for
isolate_node-devices node_id s = elim (Option-cases (get_node node_id s)) [
  | inl e ↦ rw (isolate_node, if_enrolled, e) refl
  | inr (n, e) ↦ rw (isolate_node, if_enrolled, e) (enqueue-ok node_id _ _ 200 s n e).1
]

-- Isolating a node never fails. An enrolled node has a quarantine command pending afterwards, and nothing
-- is queued for an identifier that is not enrolled.
pub isolate_node_lem :
    (node_id : String) (s : Store)
    → ((isolate_node node_id s).0 ≡ ok tt)
      × ((n : MeshNode)
          → get_node node_id s ≡ some n
          → has_pending node_id "QUARANTINE" (isolate_node node_id s).1 ≡ true)
      × (get_node node_id s ≡ none → (isolate_node node_id s).1 ≡ s)
unfolding isolate_node
isolate_node_lem node_id s = (
  total node_id s,
  λ n e. rw (isolate_node, if_enrolled, e) (enqueue-has_pending node_id "QUARANTINE" _ 200 s n e),
  λ e. rw (isolate_node, if_enrolled, e) refl,
)

module _ (checksum : List PolicyIrRule → String) where
  -- A set of policies that does not compile is not staged: nothing is written and no node hears of it.
  pub stage_refused :
      (id : String) (policies : List NetworkPolicy) (by : Option String) (s : Store) (x : Error)
      → compile checksum policies s.now ≡ err x
      → stage checksum id policies by s ≡ (err x, s)
  unfolding stage
  stage_refused id policies by s x e = rw (stage, e) refl
