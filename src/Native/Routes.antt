-- ===== src/Native/Routes.antt =====
-- `parseIpRouteLine` of native/linux/adapter.ts, and the arguments that `replaceRoutes` gives to `ip`.
-- `number_of` is `Number`, `none` where that is NaN.
use Prim.Native.Char.{code}
use bapc_vpn_and_digital_sec.Base.{
  ℕ, String, not, List, [], ◌∷◌, ◌++◌, Option, none, some, ◌==◌, string_eq, if◌then◌else◌, is_empty,
  filter, is_space, push_first, decimal,
}
use bapc_vpn_and_digital_sec.Store.{Route}
use bapc_vpn_and_digital_sec.Native.{text_if}

-- what the parser makes of a line, where a last word "dev" leaves the name of the interface undefined
pub record ParsedRoute : Type 0 where
  pub destination : String
  pub gateway : Option String
  pub interface_name : Option String
  pub metric : Option ℕ

split_spaces : String → List String
split_spaces String.[] = "" ∷ []
split_spaces (String.◌∷◌ c s) =
    let rest = split_spaces s in if is_space (code c) then "" ∷ rest else push_first c rest

-- `line.trim().split(/\s+/)`; a line of white space has no tokens here and one empty token there, which
-- is left out in the same way
unfoldable pub tokens_of : String → List String
unfolding split_spaces
tokens_of line = filter (λ t. not (is_empty t)) (split_spaces line)

abbrev pub head_of : List String → Option String
head_of [] = none
head_of (x ∷ xs) = some x

-- the token after the first one that is the word: `none` if the word is missing
unfoldable pub token_after : String → List String → Option (Option String)
token_after word [] = none
token_after word (t ∷ ts) =
    let rest = token_after word ts in if t == word then some (head_of ts) else rest

-- `index!==-1&&tokens[index+1]`
abbrev pub present : Option (Option String) → Option String
present none = none
present (some t) = text_if t

abbrev pub or_zero : (String → Option ℕ) → Option String → Option ℕ
or_zero number_of none = some 0
or_zero number_of (some t) = number_of t

abbrev pub destination_of : String → String
destination_of t = if t == "default" then "0.0.0.0/0" else t

module _ (number_of : String → Option ℕ) where
  unfoldable pub parse_tokens : List String → Option ParsedRoute
  unfolding token_after
  parse_tokens [] = none
  parse_tokens (t ∷ ts) = elim (token_after "dev" (t ∷ ts)) [
    | none ↦ none
    | some interface_name ↦ some (record {
      destination = destination_of t;
      gateway = present (token_after "via" (t ∷ ts));
      interface_name = interface_name;
      metric = or_zero number_of (present (token_after "metric" (t ∷ ts)));
    })
  ]

  -- `parseIpRouteLine`
  unfoldable pub parse_route : String → Option ParsedRoute
  unfolding tokens_of parse_tokens
  parse_route line = parse_tokens (tokens_of line)

  -- the `map` and the `filter` of `readRoutes`
  unfoldable pub parse_lines : List String → List ParsedRoute
  unfolding parse_route
  parse_lines [] = []
  parse_lines (line ∷ lines) = elim (parse_route line) [
    | none ↦ parse_lines lines
    | some r ↦ r ∷ parse_lines lines
  ]

abbrev pub via_tokens : Option String → List String
via_tokens none = []
via_tokens (some g) = "via" ∷ g ∷ []

-- the arguments after "route" and "replace"
unfoldable pub route_tokens : Route → List String
route_tokens r =
    r.destination ∷ via_tokens (text_if r.gateway)
    ++ "dev" ∷ r.interface_name ∷ "metric" ∷ decimal r.metric ∷ []
