-- ===== src/Agent/Production.antt =====
-- agents/shared/production-agent.ts, `ProductionAgent`: the commands that an endpoint executes and what it
-- reports of each. The adapter of the operating system and the connection to the controller are parameters
-- with states `P` and `C` of their own; `hash` stands for SHA-256 over `canonicalJson`, `describe` for the
-- message of an error, and `at` for the clock reading of a round.
pub mod Corrections
pub mod InSync
pub mod Rounds
use bapc_vpn_and_digital_sec.Base.{
  ℕ, zero, suc, String, Bool, true, false, not, List, [], ◌∷◌, Option, none, some, ◌==◌, string_eq,
  if◌then◌else◌, ◌<+>◌,
}
use bapc_vpn_and_digital_sec.Json.{
  Json, null, bool, num, str, arr, obj, Items, nil, Fields, end, field, get_field, is_truthy,
}
use bapc_vpn_and_digital_sec.Domain.{Error, plain, Posture}
use bapc_vpn_and_digital_sec.Store.Monad.{Result, ok, err}
use bapc_vpn_and_digital_sec.Agent.{ReconcileStatus, stale, applied, Report}

pub record ControllerCommand : Type 0 where
  pub id : String
  pub type : String
  pub payload : Json

-- what the agent calls of its adapter (native/shared/platform-adapter.ts)
pub record PlatformAdapter (P : Type 0) : Type 0 where
  pub apply_wire_guard : Json → P → Result (Unit {0}) × P
  pub apply_peers : Option Json → P → Result (Unit {0}) × P
  pub rotate_private_key : String → P → Result (Unit {0}) × P
  pub apply_firewall : Json → P → Result (Unit {0}) × P
  pub rollback_firewall : Option Json → P → Result (Unit {0}) × P
  pub set_kill_switch : Bool → P → Result (Unit {0}) × P
  pub set_dns : Option Json → P → Result (Unit {0}) × P
  pub isolate : Json → P → Result (Unit {0}) × P
  pub restore : P → Result (Unit {0}) × P
  pub collect_posture : P → Result Posture × P

pub record AgentController (C : Type 0) : Type 0 where
  pub heartbeat : Posture → C → Result (List ControllerCommand) × C
  pub acknowledge : String → Json → C → Result (Unit {0}) × C

pub record RotationReply : Type 0 where
  pub acknowledged : Bool
  pub effective_epoch : ℕ

-- the key pair of a rotation, the signature of its request, and the request to the mesh
pub record Rotation (P C : Type 0) : Type 0 where
  pub generate : P → (String × String) × P
  pub sign : String → String → String
  pub rotate_peer_key : String → String → String → C → Result RotationReply × C

pub record ProductionAgent (P C : Type 0) : Type 0 where
  pub node_id : String
  pub platform : PlatformAdapter P
  pub controller : AgentController C
  pub reconciler : Option (Json → P → Result Report × P)
  pub rotation : Option (Rotation P C)

abbrev pub Step : Type 0 → Type 0 → Type 0 → Type 0
Step P C A = P × C → Result A × (P × C)

module _ {P C : Type 0} where
  abbrev pub then_step : {A B : Type 0} → Result A × (P × C) → (A → Step P C B) → Result B × (P × C)
  then_step (ok a, x) f = f a x
  then_step (err e, x) f = (err e, x)

  infixl 5 ◌>>=◌ ◌>>◌
  abbrev pub ◌>>=◌ : {A B : Type 0} → Step P C A → (A → Step P C B) → Step P C B
  ◌>>=◌ m f x = then_step (m x) f

  abbrev pub ◌>>◌ : {A B : Type 0} → Step P C A → Step P C B → Step P C B
  ◌>>◌ m k x = then_step (m x) (λ _. k)

  abbrev pub return : {A : Type 0} → A → Step P C A
  return a x = (ok a, x)

  abbrev pub of_result : {A : Type 0} → Result A → Step P C A
  of_result r x = (r, x)

  abbrev pub on_platform : {A : Type 0} → (P → Result A × P) → Step P C A
  on_platform f (p, c) = let (r, p') = f p in (r, (p', c))

  abbrev pub on_controller : {A : Type 0} → (C → Result A × C) → Step P C A
  on_controller f (p, c) = let (r, c') = f c in (r, (p, c'))

-- `payload.key`, which throws if the payload is null
abbrev pub read : String → Json → Result (Option Json)
read key null = err (plain ("Cannot read properties of null (reading '" <+> key <+> "')"))
read key v = ok (get_field key v)

abbrev pub or_else : Json → Option Json → Json
or_else otherwise none = otherwise
or_else otherwise (some null) = otherwise
or_else otherwise (some v) = v

-- a field that is left out where the value is undefined
abbrev pub field_if : String → Option Json → Fields → Fields
field_if key none rest = rest
field_if key (some v) rest = field key v rest

-- the digest of a value; the hash refuses undefined
abbrev pub digest_of : (Json → String) → Option Json → Result String
digest_of hash none = err (
    plain
      "The \"data\" argument must be of type string or an instance of Buffer, TypedArray, or DataView. Received undefined")
digest_of hash (some v) = ok (hash v)

abbrev pub status_name : ReconcileStatus → String
status_name stale = "STALE"
status_name applied = "APPLIED"

abbrev pub or_fail : {P C A : Type 0} → Option A → String → Step P C A
or_fail none message x = (err (plain message), x)
or_fail (some a) message x = (ok a, x)

abbrev pub fail_if : {P C : Type 0} → Bool → String → Step P C (Unit {0})
fail_if true message x = (err (plain message), x)
fail_if false message x = (ok tt, x)

module _ {P C : Type 0} (agent : ProductionAgent P C) (hash : Json → String) where
  -- "ROTATE_IDENTITY_REQUIRED"
  unfoldable pub rotate_identity : Step P C Fields
  rotate_identity = do
    rotation ←
        or_fail agent.rotation
          "ROTATE_IDENTITY_REQUIRED received but no MeshRotationClient/IdentitySigner is configured"
    keys ← on_platform (λ p. let (k, p') = rotation.generate p in (ok k, p'))
    reply ←
        on_controller
          (rotation.rotate_peer_key agent.node_id keys.0 (rotation.sign agent.node_id keys.0))
    fail_if (not reply.acknowledged) "mesh rejected the identity rotation"
    on_platform (agent.platform.rotate_private_key keys.1)
    return
        (field "newPublicKey" (str keys.0) (field "effectiveEpoch" (num reply.effective_epoch) end))

  unfoldable pub set_kill_switch : Json → Step P C Fields
  set_kill_switch payload = do
    value ← of_result (read "enabled" payload)
    let enabled = is_truthy value
    on_platform (agent.platform.set_kill_switch enabled)
    return (field "enabled" (bool enabled) end)

  unfoldable pub set_dns : Json → Step P C Fields
  set_dns payload = do
    servers ← of_result (read "servers" payload)
    on_platform (agent.platform.set_dns servers)
    return (field_if "servers" servers end)

  unfoldable pub apply_peers : Json → Step P C Fields
  apply_peers payload = do
    peers ← of_result (read "peers" payload)
    on_platform (agent.platform.apply_peers peers)
    topology_hash ← of_result (digest_of hash peers)
    return (field "topologyHash" (str topology_hash) end)

  unfoldable pub apply_firewall : Json → Step P C Fields
  apply_firewall payload = do
    on_platform (agent.platform.apply_firewall payload)
    rules ← of_result (read "rules" payload)
    commit_id ← of_result (read "commitId" payload)
    return (
        field_if "commitId" commit_id
          (field "firewallHash" (str (hash (or_else (arr nil) rules))) end))

  unfoldable pub reconcile_state : Json → Step P C Fields
  reconcile_state payload = do
    reconciler ←
        or_fail agent.reconciler "RECONCILE command received but no AgentReconciler is configured"
    report ← on_platform (reconciler payload)
    return (
        field "status" (str (status_name report.status))
          (field "revision" (num report.revision) end))

  abbrev without_fields : Step P C (Unit {0}) → Step P C Fields
  without_fields m = m >> return end

  abbrev roll_back : Json → Step P C Fields
  roll_back payload = do
    commit_id ← of_result (read "commitId" payload)
    without_fields (on_platform (agent.platform.rollback_firewall commit_id))

  abbrev isolate_endpoint : Json → Step P C Fields
  isolate_endpoint payload = do
    reason ← of_result (read "reason" payload)
    without_fields
        (on_platform (agent.platform.isolate (or_else (str "controller quarantine") reason)))

  -- the `switch` of `execute`, up to the acknowledgement: its fields beside `ok` and `at`
  unfoldable pub perform : ControllerCommand → Step P C Fields
  perform c =
      if c.type == "SET_KILL_SWITCH"
      then set_kill_switch c.payload
      else if c.type == "SET_DNS"
      then set_dns c.payload
      else if c.type == "APPLY_WIREGUARD"
      then without_fields (on_platform (agent.platform.apply_wire_guard c.payload))
      else if c.type == "APPLY_PEERS"
      then apply_peers c.payload
      else if c.type == "APPLY_FIREWALL"
      then apply_firewall c.payload
      else if c.type == "ROLLBACK_FIREWALL"
      then roll_back c.payload
      else if c.type == "QUARANTINE"
      then isolate_endpoint c.payload
      else if c.type == "RESTORE"
      then without_fields (on_platform agent.platform.restore)
      else if c.type == "ROTATE_IDENTITY_REQUIRED"
      then rotate_identity
      else if c.type == "RECONCILE"
      then reconcile_state c.payload
      else of_result (err (plain ("unsupported controller command " <+> c.type)))

  module _ (describe : Error → String) (at : String) where
    abbrev pub success : Fields → Json
    success fields = obj (field "ok" (bool true) (field "at" (str at) fields))

    abbrev pub failure : Error → Json
    failure e = obj (field "ok" (bool false) (field "error" (str (describe e)) end))

    abbrev pub report : ControllerCommand → Json → Step P C (Unit {0})
    report c result = on_controller (agent.controller.acknowledge c.id result)

    -- the `catch`, where an acknowledgement that fails ends the agent's loop
    abbrev pub caught :
        ControllerCommand → Result (Unit {0}) × (P × C) → Result (Unit {0}) × (P × C)
    caught c (ok _, x) = (ok tt, x)
    caught c (err e, x) = report c (failure e) x

    unfoldable pub execute : ControllerCommand → Step P C (Unit {0})
    execute c x = caught c (then_step (perform c x) (λ fields. report c (success fields)))

    unfoldable pub execute_all : List ControllerCommand → Step P C (Unit {0})
    execute_all [] x = (ok tt, x)
    execute_all (c ∷ cs) x = then_step (execute c x) (λ _. execute_all cs)

    -- one turn of the loop of `run`, which ends where the posture cannot be collected
    unfoldable pub round : Step P C (Unit {0})
    unfolding execute_all
    round = do
      posture ← on_platform agent.platform.collect_posture
      commands ← on_controller (agent.controller.heartbeat posture)
      execute_all commands

  -- `run` until it is stopped after as many turns as there are clock readings
  unfoldable pub run : (Error → String) → List String → Step P C (Unit {0})
  unfolding round
  run describe [] x = (ok tt, x)
  run describe (at ∷ later) x = then_step (round describe at x) (λ _. run describe later)
