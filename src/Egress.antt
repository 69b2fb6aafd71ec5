-- ===== src/Egress.antt =====
-- services/egress/selector.ts, `EgressSelector`. Latency counts a tenth, so scores are compared in
-- twentieths over the room of the capacity, as naturals: preference against penalty, crosswise.
pub mod Laws
pub mod Gateways
use bapc_vpn_and_digital_sec.Base.{
  ℕ, ◌+◌, ◌*◌, String, Bool, true, false, ◌&&◌, List, [], ◌∷◌, Option, none, some, ◌==◌, string_eq,
  if◌then◌else◌, ltb, filter, sort,
}
use bapc_vpn_and_digital_sec.Domain.{Error, plain}
use bapc_vpn_and_digital_sec.Store.Monad.{Result, ok, err}
use bapc_vpn_and_digital_sec.Mesh.Routing.{Fraction}

pub record EgressGateway : Type 0 where
  pub id : String
  pub region : String
  pub fixed_ip : String
  pub healthy : Bool
  pub load_percent : ℕ
  pub last_check : ℕ
  pub latency_ms : ℕ
  pub active_sessions : ℕ
  pub capacity_percent : Fraction

unfoldable pub is_usable : ℕ → EgressGateway → Bool
is_usable now g =
    g.healthy
    && ltb now (g.last_check + 30000)
    && ltb g.load_percent 95
    && ltb g.capacity_percent.used (95 * g.capacity_percent.room)

-- ten times the score is `preference - penalty/room`
unfoldable pub preference : String → EgressGateway → ℕ
preference region g = if g.region == region then 1000 else 0

unfoldable pub penalty : EgressGateway → ℕ
penalty g =
    (g.load_percent * 10 + g.latency_ms) * g.capacity_percent.room + g.capacity_percent.used * 20

abbrev pub worse : String → EgressGateway → EgressGateway → Bool
worse region a b =
    ltb
      (preference region a * a.capacity_percent.room * b.capacity_percent.room
        + penalty b * a.capacity_percent.room)
      (preference region b * b.capacity_percent.room * a.capacity_percent.room
        + penalty a * b.capacity_percent.room)

abbrev pub first_gateway : List EgressGateway → Result EgressGateway
first_gateway [] = err (plain "no healthy egress gateway")
first_gateway (g ∷ _) = ok g

unfoldable pub select : List EgressGateway → String → ℕ → Result EgressGateway
select gateways region now =
    first_gateway (sort (λ a b. worse region b a) (filter (is_usable now) gateways))
