-- ===== src/Native/RouteWords.antt =====
-- The two directions of native/linux/adapter.ts for the routes of an endpoint: the words that `replaceRoutes` gives
-- to `ip`, read by `parseIpRouteLine`.
use bapc_vpn_and_digital_sec.Base.{
  ℕ, String, ◌≡◌, inl, inr, false, Option, none, some, arith, ◌==◌, string_eq, eq_of_==,
  is_empty-decimal, Bool-cases, is_empty, decimal,
}
use bapc_vpn_and_digital_sec.Store.{Route}
use bapc_vpn_and_digital_sec.Native.Routes.{ParsedRoute, token_after, parse_tokens, route_tokens}

-- a word that is not empty and that the parser does not look for
abbrev pub IsPlainWord : String → Type 0
IsPlainWord t =
    ((t == "via") ≡ false)
    × ((t == "dev") ≡ false)
    × ((t == "metric") ≡ false)
    × (is_empty t ≡ false)

abbrev pub IsPlainGateway : Option String → Type 0
IsPlainGateway none = Unit
IsPlainGateway (some g) = IsPlainWord g

-- a route of which no part is a keyword or empty, and whose destination is an address
abbrev pub IsPlainRoute : Route → Type 0
IsPlainRoute r =
    IsPlainWord r.destination
    × ((r.destination == "default") ≡ false)
    × IsPlainGateway r.gateway
    × IsPlainWord r.interface_name

abbrev pub parsed_of : Route → ParsedRoute
parsed_of r = record {
  destination = r.destination;
  gateway = r.gateway;
  interface_name = some r.interface_name;
  metric = some r.metric;
}

-- A text that is read as a number is not a word that is read as none.
not_word :
    (number_of : String → Option ℕ) (t w : String) (n : ℕ)
    → number_of t ≡ some n
    → number_of w ≡ none
    → (t == w) ≡ false
not_word number_of t w n h k = elim (Bool-cases (t == w)) [
  | inr e ↦ e
  | inl e ↦ elim (absurd (eq_of_== t w e)) [ ]
]
  where
    absurd : t ≡ w → ⊥
    absurd e = cc

module _ (number_of : String → Option ℕ) where
  -- The words that put a route in place are read as that route: its gateway, its interface and its metric
  -- come back, where `Number` reads the metric back and is NaN for the word "via", where the destination is
  -- not the word "default", and where no part of the route is empty or a word of the syntax.
  pub parse_tokens-route_tokens :
      (r : Route)
      → IsPlainRoute r
      → number_of (decimal r.metric) ≡ some r.metric
      → number_of "via" ≡ none
      → parse_tokens number_of (route_tokens r) ≡ some (parsed_of r)
  unfolding parse_tokens route_tokens token_after
  parse_tokens-route_tokens r p n v =
      ground
        (arith, is_empty-decimal r.metric, not_word number_of (decimal r.metric) "via" r.metric n v)
