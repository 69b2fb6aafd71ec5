-- ===== src/Agent/Production/Rounds.antt =====
-- The loop of the agent (agents/shared/production-agent.ts) on the queue of the control plane.
use bapc_vpn_and_digital_sec.Base.{ℕ, ◌≤◌, ◌<◌, String, ◌≡◌, none, List, map, string_eq, length}
use bapc_vpn_and_digital_sec.Json.{Json}
use bapc_vpn_and_digital_sec.Domain.{Error, MeshNode, Posture}
use bapc_vpn_and_digital_sec.Store.{Store, Command}
use bapc_vpn_and_digital_sec.Store.Monad.{Result, ok}
use bapc_vpn_and_digital_sec.Store.Commands.Delivery.{waiting}
use bapc_vpn_and_digital_sec.Agent.{Report}
use bapc_vpn_and_digital_sec.Agent.Production.{
  PlatformAdapter, ProductionAgent, Step, execute_all, round,
}
use bapc_vpn_and_digital_sec.Agent.Production.InSync.{delivered, agent_on_queue}

module _ {P C : Type 0} where
  -- The step leaves the controller as it is.
  abbrev Keeps : {A : Type 0} → Step P C A → Type 0
  Keeps m = (x : P × C) → (m x).1.1 ≡ x.1

module _ {P : Type 0} (platform : PlatformAdapter P) (reconciler : Json → P → Result Report × P)
    (hash : Json → String) (describe : Error → String) (n : MeshNode) where
  -- the agent without a client for rotations
  abbrev pub plain_agent : ProductionAgent P Store
  plain_agent = agent_on_queue platform reconciler none n

  abbrev waits : Store → ℕ
  waits s = length (waiting n.id s)

  -- a state that a list of commands leaves
  abbrev Settled : String → List Command → P → Store → Type 0
  Settled at cs p s =
      (p' : P) × (s' : Store) × (execute_all plain_agent hash describe at (map delivered cs) (p, s)
        ≡ (ok tt, (p', s')))
      × (waits s' ≤ waits s)

  -- One turn of the loop ends well and leaves no more commands waiting, and fewer if one was waiting.
  abbrev RoundEnds : String → P → Store → Type 0
  RoundEnds at p s =
      (p' : P) × (s' : Store) × (round plain_agent hash describe at (p, s) ≡ (ok tt, (p', s')))
      × (waits s' ≤ waits s)
      × (0 < waits s → waits s' < waits s)

  -- The adapter can always tell the posture of the endpoint.
  abbrev pub TellsPosture : Type 0
  TellsPosture =
      (p : P) → (posture : Posture) × (q : P) × (platform.collect_posture p ≡ (ok posture, q))
