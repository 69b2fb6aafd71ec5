-- ===== src/Json.antt =====
-- JSON values, as the payloads of commands, events and acknowledgements. Numbers are natural
-- numbers: no payload that the model builds or reads holds a negative or fractional one.
use bapc_vpn_and_digital_sec.Base.{ℕ, String, Bool, true, false, List, [], ◌∷◌, Option, none, some}
use bapc_vpn_and_digital_sec.Base.{◌==◌, if◌then◌else◌, string_eq, not, eq_ℕ, is_empty}

mutual
  pub data Json : Type 0 where
    null : Json
    bool : Bool → Json
    num : ℕ → Json
    str : String → Json
    arr : Items → Json
    obj : Fields → Json

  pub data Items : Type 0 where
    nil : Items
    cons : Json → Items → Items

  pub data Fields : Type 0 where
    end : Fields
    field : String → Json → Fields → Fields

abbrev pub items : List Json → Items
items [] = nil
items (x ∷ xs) = cons x (items xs)

abbrev pub strings : List String → Items
strings [] = nil
strings (x ∷ xs) = cons (str x) (strings xs)

abbrev pub numbers : List ℕ → Items
numbers [] = nil
numbers (x ∷ xs) = cons (num x) (numbers xs)

abbrev pub lookup_field : String → Fields → Option Json
lookup_field k end = none
lookup_field k (field j v fs) = if j == k then some v else lookup_field k fs

-- `value?.key`
abbrev pub get_field : String → Json → Option Json
get_field k (obj fs) = lookup_field k fs
get_field k _ = none

-- `details?.key === text`
abbrev pub is_text : String → Option Json → Bool
is_text s (some (str t)) = t == s
is_text s _ = false

abbrev pub is_bool : Bool → Option Json → Bool
is_bool true (some (bool true)) = true
is_bool false (some (bool false)) = true
is_bool _ _ = false

-- `Boolean(v)`
abbrev pub is_truthy : Option Json → Bool
is_truthy none = false
is_truthy (some null) = false
is_truthy (some (bool b)) = b
is_truthy (some (num n)) = not (eq_ℕ n 0)
is_truthy (some (str s)) = not (is_empty s)
is_truthy (some v) = true
