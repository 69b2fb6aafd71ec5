-- ===== src/Agent/Production/Corrections.antt =====
-- From a check of drift to the endpoint and back (src/application/node-reconciliation.ts with
-- agents/shared/production-agent.ts): what a check queues is what the endpoint needs to be in sync again.
use bapc_vpn_and_digital_sec.Base.{
  ℕ, ◌+◌, ◌*◌, ◌<◌, String, ◌≡◌, refl, sym, true, false, Option, none, some, List, [], ◌∷◌, ◌++◌,
  ◌==◌, ==_refl, string_eq, find_where, All,
}
use bapc_vpn_and_digital_sec.Json.{Json}
use bapc_vpn_and_digital_sec.Domain.{Error, MeshNode, NetworkPolicy}
use bapc_vpn_and_digital_sec.Store.{Store, Command, DesiredState}
use bapc_vpn_and_digital_sec.Store.Monad.{M, Result, ok}
use bapc_vpn_and_digital_sec.Store.Repositories.{get_node}
use bapc_vpn_and_digital_sec.Store.Commands.{enqueue, enqueue_for}
use bapc_vpn_and_digital_sec.Mesh.Relays.{relay_candidates}
use bapc_vpn_and_digital_sec.Mesh.Topology.{
  configure_node, plan_for, reconcile, select_relay_endpoint,
}
use bapc_vpn_and_digital_sec.Reconciliation.{
  DriftDimension, DriftFinding, routes_and_integrity, dns, kill_switch, peer_topology,
  policy_version, corrected, latest_committed_commit, check_routes, check_dns, check_kill_switch,
  check_peer_topology, check_policy_version,
}
use bapc_vpn_and_digital_sec.Agent.{Report}
use bapc_vpn_and_digital_sec.Agent.Production.{PlatformAdapter, Rotation}
use bapc_vpn_and_digital_sec.Agent.Production.InSync.{
  correction_type, correction_payload, is_in_sync, CarriesOut, executed, execute-is_in_sync,
}

find_last :
    (id : String) (c : Command) (cs : List Command)
    → c.id ≡ id
    → All (λ x. (x.id == id) ≡ false) cs
    → find_where (λ x. x.id == id) (cs ++ c ∷ []) ≡ some c
find_last id c [] e h = rw (e, ==_refl id) refl
find_last id c (x ∷ xs) e h = rw h.0 (find_last id c xs e h.1)

abbrev pub priority_of : DriftDimension → ℕ
priority_of peer_topology = 100
priority_of _ = 150

module _ (hash : Json → String) (n : MeshNode) (desired : DesiredState)
    (policies : List NetworkPolicy) (all : List MeshNode) where
  abbrev pub check_of : DriftDimension → M DriftFinding
  check_of routes_and_integrity = check_routes n desired policies
  check_of dns = check_dns n desired
  check_of kill_switch = check_kill_switch n desired
  check_of peer_topology = check_peer_topology hash n all
  check_of policy_version = check_policy_version hash n policies

  -- the command that corrects a dimension, at the lifetime of an hour
  abbrev pub correction : DriftDimension → Store → Command
  correction d s = record {
    id = s.uuid s.issued;
    node_id = n.id;
    type = correction_type d;
    payload = correction_payload n desired policies all s d;
    priority = priority_of d;
    issued_at = s.now;
    not_before = s.now;
    expires_at = s.now + 60 * 60000;
    acknowledged_at = none;
    result = none;
  }

  abbrev pub corrected_store : DriftDimension → Store → Store
  corrected_store d s = record s {
    issued = s.issued + 1;
    commands = s.commands ++ correction d s ∷ [];
  }

  check_of-corrected :
      (d : DriftDimension) (s : Store)
      → get_node n.id s ≡ some n
      → is_in_sync n desired policies all s hash d s ≡ false
      → check_of d s ≡ (ok (corrected d (correction_type d)), corrected_store d s)
  unfolding check_routes check_dns check_kill_switch check_peer_topology check_policy_version
      enqueue enqueue_for reconcile configure_node
  check_of-corrected routes_and_integrity s e h = rw (check_routes, h, enqueue, enqueue_for, e) refl
  check_of-corrected dns s e h = rw (check_dns, h, enqueue, enqueue_for, e) refl
  check_of-corrected kill_switch s e h = rw (check_kill_switch, h, enqueue, enqueue_for, e) refl
  check_of-corrected peer_topology s e h =
      rw (check_peer_topology, h, reconcile, configure_node, enqueue, enqueue_for, e) refl
  check_of-corrected policy_version s e h =
      rw (check_policy_version, h, enqueue, enqueue_for, e) refl

  correction_payload-corrected_store :
      (d : DriftDimension) (s : Store)
      → correction_payload n desired policies all (corrected_store d s) d
        ≡ correction_payload n desired policies all s d
  unfolding plan_for select_relay_endpoint relay_candidates latest_committed_commit
  correction_payload-corrected_store routes_and_integrity s = refl
  correction_payload-corrected_store dns s = refl
  correction_payload-corrected_store kill_switch s = refl
  correction_payload-corrected_store peer_topology s = refl
  correction_payload-corrected_store policy_version s = refl

module _ {P : Type 0} (platform : PlatformAdapter P) (reconciler : Json → P → Result Report × P)
    (rotation : Option (Rotation P Store)) (hash : Json → String) (describe : Error → String)
    (at : String) (n : MeshNode) (p p' : P) (desired : DesiredState) (policies : List NetworkPolicy)
    (all : List MeshNode) where
  CarriesOut-corrected_store :
      (d : DriftDimension) (s : Store)
      → CarriesOut n desired policies all s platform reconciler d p p'
      → CarriesOut n desired policies all
          (corrected_store hash n desired policies all d s)
          platform
          reconciler
          d
          p
          p'
  unfolding plan_for select_relay_endpoint relay_candidates latest_committed_commit
  CarriesOut-corrected_store routes_and_integrity s h = h
  CarriesOut-corrected_store dns s h = h
  CarriesOut-corrected_store kill_switch s h = h
  CarriesOut-corrected_store peer_topology s h = h
  CarriesOut-corrected_store policy_version s h = h

  -- A check of any of the five dimensions that finds drift at an enrolled node reports it and does nothing but to
  -- queue one command for the node, of the dimension's type and with what the node should have as its payload;
  -- and once the endpoint has executed that command and carried it out, the node is in sync in that
  -- dimension. The identifier that the database picks is new, and no acknowledgement so far is as late.
  pub checks_drifted :
      (d : DriftDimension) (s : Store)
      → get_node n.id s ≡ some n
      → All (λ c. (c.id == s.uuid s.issued) ≡ false) s.commands
      → All (λ a. a.acknowledged_at < s.now) s.acks
      → CarriesOut n desired policies all s platform reconciler d p p'
      → is_in_sync n desired policies all s hash d s ≡ false
      → (check_of hash n desired policies all d s
          ≡ (ok (corrected d (correction_type d)), corrected_store hash n desired policies all d s))
        × (is_in_sync n desired policies all s hash d (
              executed platform reconciler rotation hash describe at n
                (correction hash n desired policies all d s)
                p
                (corrected_store hash n desired policies all d s))
            ≡ true)
  checks_drifted d s e new later carried h =
      let row = correction hash n desired policies all d s in
      let t = corrected_store hash n desired policies all d s in
      (
        check_of-corrected hash n desired policies all d s e h,
        execute-is_in_sync platform reconciler rotation hash describe at n row p p' t desired
            policies all d (find_last (s.uuid s.issued) row s.commands refl new) refl later refl
            (sym (correction_payload-corrected_store hash n desired policies all d s))
            (CarriesOut-corrected_store d s carried),
      )
