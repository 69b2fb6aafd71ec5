-- ===== src/Agent.antt =====
-- src/agent/reconciler.ts (`AgentReconciler`) on an endpoint. The platform is a parameter: the hash of a
-- file, and what replacing the routes, applying a firewall plan and clearing credentials do to its state
-- `P`. Two route tables are compared by the hash of their sorted canonical text, `route_hash`.
pub mod Laws
pub mod Production
use bapc_vpn_and_digital_sec.Base.{
  ℕ, String, Bool, true, false, List, [], ◌∷◌, ◌==◌, string_eq, if◌then◌else◌, ltb, ◌<+>◌,
}
use bapc_vpn_and_digital_sec.Json.{Json}
use bapc_vpn_and_digital_sec.Domain.{Error, plain}
use bapc_vpn_and_digital_sec.Store.{Route}
use bapc_vpn_and_digital_sec.Store.Monad.{Result, ok, err}

pub record AgentPlatform (P : Type 0) : Type 0 where
  pub read_routes : P → List Route
  pub replace_routes : List Route → P → P
  pub read_file_hash : String → P → String
  pub apply_firewall_plan : Json → P → P
  pub clear_transient_credentials : P → P

pub record AgentDesiredState : Type 0 where
  pub revision : ℕ
  pub routes : List Route
  pub firewall_plan : Json
  pub integrity_files : List (String × String)

pub data ReconcileStatus : Type 0 where
  stale applied : ReconcileStatus

pub record Report : Type 0 where
  pub status : ReconcileStatus
  pub revision : ℕ

module _ {P : Type 0} (platform : AgentPlatform P) (route_hash : List Route → String) where
  -- the loop over the integrity files
  unfoldable pub check_files : List (String × String) → P → Result (Unit {0}) × P
  check_files [] p = (ok tt, p)
  check_files ((path, expected) ∷ files) p =
      let rest = check_files files p in
      if platform.read_file_hash path p == expected
      then rest
      else (err (plain ("integrity failure: " <+> path)), platform.clear_transient_credentials p)

  unfoldable pub repair_routes : List Route → P → P
  repair_routes desired p =
      if route_hash (platform.read_routes p) == route_hash desired
      then p
      else platform.replace_routes desired p

  abbrev apply_state : AgentDesiredState → ℕ → Result (Unit {0}) × P → Result Report × ℕ × P
  apply_state state revision (err e, p) = (err e, revision, p)
  apply_state state revision (ok _, p) = (
    ok (record { status = applied; revision = state.revision }),
    state.revision,
    platform.apply_firewall_plan state.firewall_plan (repair_routes state.routes p),
  )

  -- The reconciler's own state is the revision that it reached.
  unfoldable pub reconcile : AgentDesiredState → ℕ → P → Result Report × ℕ × P
  unfolding check_files repair_routes
  reconcile state revision p =
      if ltb state.revision revision
      then (ok (record { status = stale; revision = revision }), revision, p)
      else apply_state state revision (check_files state.integrity_files p)
