-- ===== src/Base/Lists.antt =====
-- Lists as the program's arrays and tables: tests, selections, writes by key.
use Prim.Native.Nat.{ℕ, zero, suc, ◌+◌, ◌≤◌}
use mathlib.Core.Path.{◌≡◌, refl}
use mathlib.Core.Bool.{Bool, true, false, ◌&&◌, ◌||◌}
use mathlib.Core.Option.{Option, none, some}
use mathlib.Core.List.{List, [], ◌∷◌, ◌++◌, Memᴰ}
use mathlib.Core.Logic.{inl, inr}
use native.Mathlib.Omega.{arith}
use bapc_vpn_and_digital_sec.Base.Equality.{if◌then◌else◌, Eq, ◌==◌, Bool-cases}

module _ {ℓ} {A : Type ℓ} where
  abbrev pub length : List A → ℕ
  length [] = 0
  length (x ∷ xs) = suc (length xs)

  abbrev pub any : (A → Bool) → List A → Bool
  any p [] = false
  any p (x ∷ xs) = p x || any p xs

  abbrev pub all : (A → Bool) → List A → Bool
  all p [] = true
  all p (x ∷ xs) = p x && all p xs

  abbrev pub filter : (A → Bool) → List A → List A
  filter p [] = []
  filter p (x ∷ xs) = if p x then x ∷ filter p xs else filter p xs

  abbrev pub find_where : (A → Bool) → List A → Option A
  find_where p [] = none
  find_where p (x ∷ xs) = if p x then some x else find_where p xs

  abbrev pub head? : List A → Option A
  head? [] = none
  head? (x ∷ xs) = some x

  abbrev pub take : ℕ → List A → List A
  take zero xs = []
  take (suc n) [] = []
  take (suc n) (x ∷ xs) = x ∷ take n xs

  -- `UPDATE … SET … WHERE`: the rows that the test selects are rewritten in place.
  abbrev pub update_where : (A → Bool) → (A → A) → List A → List A
  update_where p f [] = []
  update_where p f (x ∷ xs) = (if p x then f x else x) ∷ update_where p f xs

  -- `INSERT … ON CONFLICT DO UPDATE`: a row that the test selects is merged, otherwise one is added.
  abbrev pub upsert : (A → Bool) → (A → A) → A → List A → List A
  upsert p merge new [] = new ∷ []
  upsert p merge new (x ∷ xs) = if p x then merge x ∷ xs else x ∷ upsert p merge new xs

abbrev pub contains {ℓ} : {A : Type ℓ} ⦃e : Eq A⦄ → List A → A → Bool
contains [] a = false
contains (x ∷ xs) a = x == a || contains xs a

abbrev pub is_some {ℓ} : {A : Type ℓ} → Option A → Bool
is_some none = false
is_some (some a) = true

module _ {ℓ κ} {A : Type ℓ} where
  abbrev pub All : (A → Type κ) → List A → Type κ
  All P [] = Unit
  All P (x ∷ xs) = P x × All P xs

module _ {ℓ} {A : Type ℓ} where
  pub length-append : (xs ys : List A) → length (xs ++ ys) ≡ length xs + length ys
  length-append [] ys = omega arith
  length-append (x ∷ xs) ys = omega (arith, length-append xs ys)

  pub length-filter-le : (p : A → Bool) (xs : List A) → length (filter p xs) ≤ length xs
  length-filter-le p [] = omega arith
  length-filter-le p (x ∷ xs) = ground (arith, length-filter-le p xs)

  pub length-update_where :
      (p : A → Bool) (f : A → A) (xs : List A) → length (update_where p f xs) ≡ length xs
  length-update_where p f [] = refl
  length-update_where p f (x ∷ xs) = omega (arith, length-update_where p f xs)

  pub filter-append :
      (p : A → Bool) (xs ys : List A) → filter p (xs ++ ys) ≡ filter p xs ++ filter p ys
  filter-append p [] ys = refl
  filter-append p (x ∷ xs) ys = ground (arith, filter-append p xs ys)

  -- What a selection returns satisfies the test.
  pub find_where_sound :
      (p : A → Bool) (xs : List A) (x : A) → find_where p xs ≡ some x → p x ≡ true
  find_where_sound p [] x h = cc
  find_where_sound p (y ∷ xs) x h = ground (arith, find_where_sound p xs x)

  pub any_of_find : (p : A → Bool) (xs : List A) → any p xs ≡ is_some (find_where p xs)
  any_of_find p [] = refl
  any_of_find p (x ∷ xs) = ground (arith, any_of_find p xs)

  pub All-filter : (p : A → Bool) (xs : List A) → All (λ x. p x ≡ true) (filter p xs)
  All-filter p [] = tt
  All-filter p (x ∷ xs) = ground (arith, All-filter p xs)

  pub Memᴰ-of_filter :
      (p : A → Bool) (a : A) (xs : List A) → Memᴰ a (filter p xs) → Memᴰ a xs × (p a ≡ true)
  Memᴰ-of_filter p a [] m = elim m [ ]
  Memᴰ-of_filter p a (x ∷ xs) m = elim (Bool-cases (p x)) [
    | inl e ↦ kept (Memᴰ-of_filter p a xs) e (rw e at m)
    | inr e ↦ let r = Memᴰ-of_filter p a xs (rw e at m) in (Memᴰ.tail r.0, r.1)
  ]
    where
      kept :
          (Memᴰ a (filter p xs) → Memᴰ a xs × (p a ≡ true))
          → p x ≡ true
          → Memᴰ a (x ∷ filter p xs)
          → Memᴰ a (x ∷ xs) × (p a ≡ true)
      kept rec e (Memᴰ.head q) = (Memᴰ.head q, rw q e)
      kept rec e (Memᴰ.tail n) = let r = rec n in (Memᴰ.tail r.0, r.1)

module _ {ℓ κ} {A : Type ℓ} (p : A → Bool) (P : A → Type κ) where
  -- What holds of the rows that a test selects, under the test.
  pub All-of_filter : (xs : List A) → All P (filter p xs) → All (λ x. p x ≡ true → P x) xs
  All-of_filter [] h = tt
  All-of_filter (x ∷ xs) h = elim (Bool-cases (p x)) [
    | inl e ↦ let h' : P x × All P (filter p xs) = rw e at h in (λ _. h'.0, All-of_filter xs h'.1)
    | inr e ↦ (λ t. cc, All-of_filter xs (rw e at h))
  ]

  pub All-filter_of : (xs : List A) → All (λ x. p x ≡ true → P x) xs → All P (filter p xs)
  All-filter_of [] h = tt
  All-filter_of (x ∷ xs) h = elim (Bool-cases (p x)) [
    | inl e ↦ rw e (h.0 e, All-filter_of xs h.1)
    | inr e ↦ rw e (All-filter_of xs h.1)
  ]

module _ {ℓ} {A : Type ℓ} (p : A → Bool) where
  pub any_none : (xs : List A) → All (λ x. p x ≡ false) xs → any p xs ≡ false
  any_none [] h = refl
  any_none (x ∷ xs) h = ground (arith, any_none xs h.1)

module _ {ℓ} {A : Type ℓ} (p : A → Bool) where
  -- A selection that some element satisfies finds one.
  pub found_of_member : (xs : List A) (x : A) → Memᴰ x xs → p x ≡ true → find_where p xs ≡ none → ⊥
  found_of_member [] x m h n = elim m [ ]
  found_of_member (y ∷ xs) x (Memᴰ.head q) h n = ground arith
  found_of_member (y ∷ xs) x (Memᴰ.tail m) h n = found_of_member xs x m h (ground arith)

module _ {ℓ κ} {A : Type ℓ} (P : A → Type κ) where
  pub All-of_members : (xs : List A) → ((x : A) → Memᴰ x xs → P x) → All P xs
  All-of_members [] h = tt
  All-of_members (x ∷ xs) h = (h x (Memᴰ.head refl), All-of_members xs (λ y m. h y (Memᴰ.tail m)))

module _ {ℓ κ κ'} {A : Type ℓ} {P : A → Type κ} {Q : A → Type κ'} where
  pub All-implied : (xs : List A) → ((x : A) → P x → Q x) → All P xs → All Q xs
  All-implied [] f h = tt
  All-implied (x ∷ xs) f h = (f x h.0, All-implied xs f h.1)

module _ {ℓ} {A : Type ℓ} (p : A → Bool) where
  -- A selection that every element passes keeps them all.
  pub filter_whole : (xs : List A) → All (λ x. p x ≡ true) xs → filter p xs ≡ xs
  filter_whole [] h = refl
  filter_whole (x ∷ xs) h = ground (arith, filter_whole xs h.1)
