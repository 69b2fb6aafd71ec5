-- ===== src/Rest/Path.antt =====
-- src/api/rest/router.ts, `RestRouter.add` and the pattern that it builds from a path. A template such as
-- "/api/v1/nodes/:id/dns" is cut at its slashes: a part that starts with a colon captures one part of a
-- path, any other part stands for itself. The templates of the program have a colon only at the start of
-- a part, and no character that a regular expression reads in another way.
pub mod Laws
use Prim.Native.String
use Prim.Native.Char.{Char, code}
use bapc_vpn_and_digital_sec.Base.{
  ℕ, String, not, ◌&&◌, Option, none, some, List, [], ◌∷◌, map, if◌then◌else◌, ◌==◌, eq_ℕ,
  number_eq, string_eq, split_at, is_empty,
}

pub data Piece : Type 0 where
  fixed : String → Piece
  captured : String → Piece

-- `/:[^/]+/`
abbrev piece_from : ℕ → String → String → Piece
piece_from colon String.[] whole = fixed whole
piece_from colon (String.◌∷◌ c rest) whole =
    if eq_ℕ (code c) colon && not (is_empty rest) then captured rest else fixed whole

unfoldable pub piece_of : String → Piece
piece_of part = piece_from 58 part part

unfoldable pub pattern_of : String → List Piece
unfolding piece_of
pattern_of path = map piece_of (split_at 47 path)

unfoldable pub keys_of : List Piece → List String
keys_of [] = []
keys_of (fixed _ ∷ ps) = keys_of ps
keys_of (captured k ∷ ps) = k ∷ keys_of ps

abbrev pub add_first : String → Option (List String) → Option (List String)
add_first w none = none
add_first w (some ws) = some (w ∷ ws)

-- the groups of the match, `none` where the pattern does not match
unfoldable pub match_parts : List Piece → List String → Option (List String)
match_parts [] [] = some []
match_parts [] (w ∷ ws) = none
match_parts (p ∷ ps) [] = none
match_parts (fixed t ∷ ps) (w ∷ ws) = let rest = match_parts ps ws in if t == w then rest else none
match_parts (captured k ∷ ps) (w ∷ ws) =
    let rest = match_parts ps ws in if is_empty w then none else add_first w rest

unfoldable pub match_path : List Piece → String → Option (List String)
unfolding match_parts
match_path pattern path = match_parts pattern (split_at 47 path)
