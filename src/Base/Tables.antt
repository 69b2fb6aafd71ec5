-- ===== src/Base/Tables.antt =====
-- Reads of a table after a write, over rows with a text for a key.
use Prim.Native.String.{String}
use mathlib.Core.Path.{◌≡◌}
use mathlib.Core.Bool.{Bool, false}
use mathlib.Core.Option.{none, some}
use mathlib.Core.List.{List, [], ◌∷◌}
use native.Mathlib.Omega.{arith}
use bapc_vpn_and_digital_sec.Base.Equality.{◌==◌, string_eq, ==_refl, eq_of_==}
use bapc_vpn_and_digital_sec.Base.Lists.{find_where, upsert}

module _ {ℓ} {A : Type ℓ} (key : A → String) where
  abbrev pub has_key : String → A → Bool
  has_key k x = key x == k

  module _ (k : String) (merge : A → A) (new : A) where
    pub find-upsert_new :
        (xs : List A)
        → key new ≡ k
        → find_where (has_key k) xs ≡ none
        → find_where (has_key k) (upsert (has_key k) merge new xs) ≡ some new
    find-upsert_new [] e h = rw e (rw (==_refl k))
    find-upsert_new (x ∷ xs) e h = ground (arith, find-upsert_new xs e)

    pub find-upsert_old :
        (xs : List A) (x : A)
        → key (merge x) ≡ key x
        → find_where (has_key k) xs ≡ some x
        → find_where (has_key k) (upsert (has_key k) merge new xs) ≡ some (merge x)
    find-upsert_old [] x e h = cc
    find-upsert_old (y ∷ xs) x e h = ground (arith, find-upsert_old xs x e)

    pub find-upsert_other :
        (j : String) (xs : List A)
        → (k == j) ≡ false
        → key new ≡ k
        → ((x : A) → key (merge x) ≡ key x)
        → find_where (has_key j) (upsert (has_key k) merge new xs) ≡ find_where (has_key j) xs
    find-upsert_other j [] h e m = rw e (rw h)
    find-upsert_other j (x ∷ xs) h e m = ground (
      arith,
      find-upsert_other j xs h e m,
      m x,
      eq_of_== (key x) k,
      eq_of_== (key x) j,
      ==_refl j,
    )
