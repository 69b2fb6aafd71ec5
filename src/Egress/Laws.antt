-- ===== src/Egress/Laws.antt =====
-- The choice of an egress gateway (services/egress/selector.ts).
use bapc_vpn_and_digital_sec.Base.{
  ℕ, String, ◌≡◌, true, some, List, [], ◌∷◌, Memᴰ, arith, number_eq, string_eq, filter, head?,
  Memᴰ-of_filter, sort, Memᴰ-of_sort,
}
use bapc_vpn_and_digital_sec.Store.Monad.{ok}
use bapc_vpn_and_digital_sec.Egress.{EgressGateway, is_usable, worse, first_gateway, select}

first_member :
    (gateways rows : List EgressGateway) (now : ℕ)
    → ((g : EgressGateway) → Memᴰ g rows → Memᴰ g (filter (is_usable now) gateways))
    → (g : EgressGateway) → head? rows ≡ some g
    → Memᴰ g gateways × (is_usable now g ≡ true)
first_member gateways [] now m g h = cc
first_member gateways (x ∷ rows) now m g h =
    Memᴰ-of_filter (is_usable now) g gateways (m g (Memᴰ.head (ground arith)))

chosen :
    (rows : List EgressGateway) (g : EgressGateway)
    → first_gateway rows ≡ ok g
    → head? rows ≡ some g
chosen [] g h = cc
chosen (x ∷ rows) g h = ground arith

-- A gateway that is selected is one of those given and is usable: it is healthy, was checked in the last
-- thirty seconds and is below 95 per cent of load and of capacity. So where no gateway is usable, the
-- selection fails.
pub select-is_usable :
    (gateways : List EgressGateway) (region : String) (now : ℕ) (g : EgressGateway)
    → select gateways region now ≡ ok g
    → Memᴰ g gateways × (is_usable now g ≡ true)
unfolding select
select-is_usable gateways region now g h =
    first_member gateways (sort (λ a b. worse region b a) (filter (is_usable now) gateways)) now
      (λ x m. Memᴰ-of_sort _ x _ m) g
      (chosen (sort (λ a b. worse region b a) (filter (is_usable now) gateways)) g h)
