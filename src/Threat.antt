-- ===== src/Threat.antt =====
-- services/threat-engine/engine.ts: the signals and their score, and `ThreatEngine` over its two ports.
-- Confidence and weight are integers of thousandths, so a product is one of millionths and
-- `Math.round` rounds half a million up; a negative value counts as 0.
pub mod SignalTable
pub mod Ports
pub mod Window
pub mod Durable
pub mod Engine
pub mod Score
use bapc_vpn_and_digital_sec.Base.{
  ℕ, ◌+◌, ◌*◌, ◌/◌, min, String, Bool, true, false, List, [], ◌∷◌, Option, none, some,
  if◌then◌else◌, leb, is_empty,
}
use bapc_vpn_and_digital_sec.Json.{Json}
use bapc_vpn_and_digital_sec.Domain.{Severity, info, warn, critical, emergency}

-- A signed number of thousandths: `below n` is -(n + 1).
pub data Milli : Type 0 where
  above : ℕ → Milli
  below : ℕ → Milli

pub record ThreatSignal : Type 0 where
  pub node_id : Option String
  pub kind : String
  pub confidence : Milli
  pub weight : Milli
  pub at_ms : ℕ
  pub metadata : Json

-- `Math.max(0,Math.min(1,confidence))`
abbrev pub unit_clamp : Milli → ℕ
unit_clamp (above n) = min 1000 n
unit_clamp (below n) = 0

-- `Math.max(0,weight)`
abbrev pub non_negative : Milli → ℕ
non_negative (above n) = n
non_negative (below n) = 0

abbrev pub contribution : ThreatSignal → ℕ
contribution s = unit_clamp s.confidence * non_negative s.weight

-- the `reduce` of `score`, in millionths
unfoldable pub raw_score : List ThreatSignal → ℕ
raw_score [] = 0
raw_score (s ∷ ss) = contribution s + raw_score ss

unfoldable pub score : List ThreatSignal → ℕ
unfolding raw_score
score signals = min 100 ((raw_score signals + 500000) / 1000000)

unfoldable pub severity_of : ℕ → Severity
severity_of n =
    if leb 85 n then emergency else if leb 65 n then critical else if leb 35 n then warn else info

abbrev named : Option String → Bool
named none = false
named (some id) = if is_empty id then false else true

-- `signals.find(s=>s.nodeId)?.nodeId`
unfoldable pub attributed_node : List ThreatSignal → Option String
attributed_node [] = none
attributed_node (s ∷ ss) = if named s.node_id then s.node_id else attributed_node ss
