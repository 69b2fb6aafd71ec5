-- ===== src/Mesh/Routing.antt =====
-- src/application/relay-routing.ts, `RelayRoutingService`. A percentage of capacity is a fraction
-- `used / room` of naturals; latency and load are naturals. A score `base - penalty` is then a fraction
-- too, and two scores are compared crosswise.
pub mod Laws
use bapc_vpn_and_digital_sec.Base.{
  ℕ, ◌+◌, ◌*◌, String, Bool, true, false, ◌&&◌, List, [], ◌∷◌, ◌++◌, Option, none, some,
  if◌then◌else◌, ltb, filter, sort, is_empty,
}

pub record Fraction : Type 0 where
  pub used : ℕ
  pub room : ℕ

pub record RelayHealth : Type 0 where
  pub id : String
  pub region : String
  pub endpoint : String
  pub latency_ms : ℕ
  pub load_percent : ℕ
  pub available : Bool
  pub last_heartbeat : ℕ
  pub active_sessions : ℕ
  pub capacity_percent : Fraction
  pub throughput_bytes_per_sec : ℕ

pub data PathKind : Type 0 where
  direct local_relay regional_relay : PathKind

-- The score is `base - penalty`.
pub record PathCandidate : Type 0 where
  pub kind : PathKind
  pub endpoint : String
  pub base : ℕ
  pub penalty : Fraction

-- `latencyMs + loadPercent + capacityPercent*2`, over the room of the capacity
unfoldable pub penalty_of : RelayHealth → Fraction
penalty_of r = record {
  used = (r.latency_ms + r.load_percent) * r.capacity_percent.room + r.capacity_percent.used * 2;
  room = r.capacity_percent.room;
}

-- The age is `now - lastHeartbeat`, which is below the bound also for a heartbeat from the future.
unfoldable pub is_healthy : ℕ → RelayHealth → Bool
is_healthy now r =
    r.available
    && ltb now (r.last_heartbeat + 45000)
    && ltb r.load_percent 95
    && ltb r.capacity_percent.used (95 * r.capacity_percent.room)

-- base₁ - used₁/room₁ < base₂ - used₂/room₂, both sides multiplied by the rooms
abbrev pub score_below : PathCandidate → PathCandidate → Bool
score_below a b =
    ltb (a.base * a.penalty.room * b.penalty.room + b.penalty.used * a.penalty.room)
      (b.base * b.penalty.room * a.penalty.room + a.penalty.used * b.penalty.room)

abbrev pub relay_candidate : PathKind → ℕ → RelayHealth → PathCandidate
relay_candidate kind base r = record {
  kind = kind;
  endpoint = r.endpoint;
  base = base;
  penalty = penalty_of r;
}

-- a loop that pushes the healthy relays of one tier
unfoldable pub tier : PathKind → ℕ → ℕ → List RelayHealth → List PathCandidate
tier kind base now [] = []
tier kind base now (r ∷ rs) =
    if is_healthy now r
    then relay_candidate kind base r ∷ tier kind base now rs
    else tier kind base now rs

abbrev no_penalty : Fraction
no_penalty = record { used = 0; room = 1 }

unfoldable pub direct_candidates : Option String → List PathCandidate
direct_candidates none = []
direct_candidates (some endpoint) =
    if is_empty endpoint
    then []
    else record { kind = direct; endpoint = endpoint; base = 1000; penalty = no_penalty } ∷ []

unfoldable pub candidates :
    Option String → List RelayHealth → List RelayHealth → ℕ → List PathCandidate
candidates endpoint local regional now =
    direct_candidates endpoint
    ++ (tier local_relay 800 now local ++ tier regional_relay 600 now regional)

unfoldable pub select : Option String → List RelayHealth → List RelayHealth → ℕ → List PathCandidate
select endpoint local regional now =
    sort (λ a b. score_below b a) (candidates endpoint local regional now)
