-- ===== src/Base/Text.antt =====
-- JavaScript's operations on strings: `trim`, `length`, `includes` and `split`, over code points.
use Prim.Native.Nat.{ℕ, zero, suc, ◌+◌, ◌/◌, ◌%◌}
use Prim.Native.Char.{Char, code}
use Prim.Native.String
use Prim.Native.String.{String}
use Prim.Native.String.append
use mathlib.Core.Path.{◌≡◌, refl}
use mathlib.Core.Logic.{inl, inr}
use mathlib.Core.Bool.{Bool, true, false, ◌&&◌, ◌||◌}
use mathlib.Core.List.{List, [], ◌∷◌, map, reverse}
use bapc_vpn_and_digital_sec.Base.Equality.{if◌then◌else◌, ltb, leb, eq_ℕ, Bool-cases}

abbrev pub codes : String → List ℕ
codes String.[] = []
codes (String.◌∷◌ c s) = code c ∷ codes s

abbrev pub starts : List ℕ → List ℕ → Bool
starts [] ys = true
starts (x ∷ xs) [] = false
starts (x ∷ xs) (y ∷ ys) = eq_ℕ x y && starts xs ys

abbrev has_part : List ℕ → List ℕ → Bool
has_part part [] = starts part []
has_part part (y ∷ ys) = starts part (y ∷ ys) || has_part part ys

-- `s.includes(part)`
abbrev pub includes : String → String → Bool
includes s part = has_part (codes part) (codes s)

abbrev lower_code : ℕ → ℕ
lower_code c = if leb 65 c && leb c 90 then c + 32 else c

-- a test `/part/i`, for a `part` of small letters and spaces
abbrev pub mentions : String → String → Bool
mentions part s = has_part (codes part) (map lower_code (codes s))

abbrev pub push_first : Char → List String → List String
push_first c [] = []
push_first c (w ∷ ws) = String.◌∷◌ c w ∷ ws

-- `s.split(c)` for one character
abbrev pub split_at : ℕ → String → List String
split_at sep String.[] = "" ∷ []
split_at sep (String.◌∷◌ c s) =
    let rest = split_at sep s in if eq_ℕ (code c) sep then "" ∷ rest else push_first c rest

-- WhiteSpace and LineTerminator of the language's definition
abbrev pub is_space : ℕ → Bool
is_space c =
    (leb 9 c && leb c 13)
    || eq_ℕ c 32
    || eq_ℕ c 160
    || eq_ℕ c 5760
    || (leb 8192 c && leb c 8202)
    || eq_ℕ c 8232
    || eq_ℕ c 8233
    || eq_ℕ c 8239
    || eq_ℕ c 8287
    || eq_ℕ c 12288
    || eq_ℕ c 65279

drop_spaces : List ℕ → List ℕ
drop_spaces [] = []
drop_spaces (c ∷ cs) = if is_space c then drop_spaces cs else c ∷ cs

-- The length counts UTF-16 units: two for a code point above the basic plane.
units : List ℕ → ℕ
units [] = 0
units (c ∷ cs) = (if ltb c 65536 then 1 else 2) + units cs

unfoldable pub text_length : String → ℕ
unfolding units
text_length s = units (codes s)

unfoldable pub trimmed_length : String → ℕ
unfolding drop_spaces units
trimmed_length s = units (drop_spaces (reverse (drop_spaces (codes s))))

abbrev pub is_empty : String → Bool
is_empty String.[] = true
is_empty (String.◌∷◌ _ _) = false

digit : ℕ → String
digit zero = "0"
digit (suc zero) = "1"
digit (suc (suc zero)) = "2"
digit (suc (suc (suc zero))) = "3"
digit (suc (suc (suc (suc zero)))) = "4"
digit (suc (suc (suc (suc (suc zero))))) = "5"
digit (suc (suc (suc (suc (suc (suc zero)))))) = "6"
digit (suc (suc (suc (suc (suc (suc (suc zero))))))) = "7"
digit (suc (suc (suc (suc (suc (suc (suc (suc zero)))))))) = "8"
digit _ = "9"

-- A number has no more digits than its value plus one.
digits_from : ℕ → ℕ → String
digits_from zero n = ""
digits_from (suc fuel) n = elim (ltb n 10) [
  | true ↦ digit n
  | false ↦ String.◌++◌ (digits_from fuel (n / 10)) (digit (n % 10))
]

-- `String(n)`
unfoldable pub decimal : ℕ → String
unfolding digits_from digit
decimal n = digits_from (suc n) n

is_empty-append : (s t : String) → is_empty t ≡ false → is_empty (String.◌++◌ s t) ≡ false
is_empty-append String.[] t h = rw (append.nil t) h
is_empty-append (String.◌∷◌ c s) t h = rw (append.cons c s t) refl

is_empty-digit : (n : ℕ) → is_empty (digit n) ≡ false
unfolding digit
is_empty-digit zero = refl
is_empty-digit (suc zero) = refl
is_empty-digit (suc (suc zero)) = refl
is_empty-digit (suc (suc (suc zero))) = refl
is_empty-digit (suc (suc (suc (suc zero)))) = refl
is_empty-digit (suc (suc (suc (suc (suc zero))))) = refl
is_empty-digit (suc (suc (suc (suc (suc (suc zero)))))) = refl
is_empty-digit (suc (suc (suc (suc (suc (suc (suc zero))))))) = refl
is_empty-digit (suc (suc (suc (suc (suc (suc (suc (suc zero)))))))) = refl
is_empty-digit (suc (suc (suc (suc (suc (suc (suc (suc (suc zero))))))))) = refl
is_empty-digit (suc (suc (suc (suc (suc (suc (suc (suc (suc (suc n)))))))))) = refl

-- A number is written with at least one digit.
pub is_empty-decimal : (n : ℕ) → is_empty (decimal n) ≡ false
unfolding decimal digits_from
is_empty-decimal n = elim (Bool-cases (ltb n 10)) [
  | inl e ↦ rw (decimal, digits_from, e) (is_empty-digit n)
  | inr e ↦ rw (decimal, digits_from, e) (is_empty-append _ _ (is_empty-digit (n % 10)))
]

infixr 66 ◌<+>◌
-- the parts of a template literal
abbrev pub ◌<+>◌ : String → String → String
s <+> t = String.◌++◌ s t

-- `words.join(sep)`
abbrev pub join_with : String → List String → String
join_with sep [] = ""
join_with sep (w ∷ []) = w
join_with sep (w ∷ v ∷ ws) = w <+> sep <+> join_with sep (v ∷ ws)
