-- ===== src/Base/Sort.antt =====
-- `Array.prototype.sort` and `ORDER BY`: a stable sort by a test "stands strictly before".
use Prim.Native.Nat.{ℕ, ◌≤◌}
use Prim.Native.String.{String, compare}
use mathlib.Core.Logic.{inl, inr}
use mathlib.Core.Bool.{Bool}
use mathlib.Core.List.{List, [], ◌∷◌, Perm, Memᴰ}
use mathlib.Core.List.Perm
use native.Mathlib.Omega.{arith}
use text.Mathlib.Text.{is_lt}
use bapc_vpn_and_digital_sec.Base.Equality.{if◌then◌else◌, Bool-cases, ltb}
use bapc_vpn_and_digital_sec.Base.Lists.{All}

abbrev pub text_before : String → String → Bool
text_before a b = is_lt (compare a b)

module _ {ℓ} {A : Type ℓ} (before : A → A → Bool) where
  abbrev pub insert_sorted : A → List A → List A
  insert_sorted x [] = x ∷ []
  insert_sorted x (y ∷ ys) = if before y x then y ∷ insert_sorted x ys else x ∷ y ∷ ys

  abbrev pub sort : List A → List A
  sort [] = []
  sort (x ∷ xs) = insert_sorted x (sort xs)

  insert_sorted-perm : (x : A) (ys : List A) → Perm (insert_sorted x ys) (x ∷ ys)
  insert_sorted-perm x [] = Perm.refl (x ∷ [])
  insert_sorted-perm x (y ∷ ys) = elim (Bool-cases (before y x)) [
    | inl e ↦ rw e (Perm.trans (Perm.cons y (insert_sorted-perm x ys)) (Perm.swap x y ys))
    | inr e ↦ rw e (Perm.refl (x ∷ y ∷ ys))
  ]

  pub sort-perm : (xs : List A) → Perm (sort xs) xs
  sort-perm [] = Perm.refl []
  sort-perm (x ∷ xs) = Perm.trans (insert_sorted-perm x (sort xs)) (Perm.cons x (sort-perm xs))

module _ {ℓ κ} {A : Type ℓ} (before : A → A → Bool) (P : A → Type κ) where
  All-insert_sorted : (x : A) (ys : List A) → P x → All P ys → All P (insert_sorted before x ys)
  All-insert_sorted x [] p h = (p, tt)
  All-insert_sorted x (y ∷ ys) p h = elim (Bool-cases (before y x)) [
    | inl e ↦ rw e (h.0, All-insert_sorted x ys p h.1)
    | inr e ↦ rw e (p, h)
  ]

  -- What holds of every row holds of every row of the sorted list.
  pub All-sort : (xs : List A) → All P xs → All P (sort before xs)
  All-sort [] h = tt
  All-sort (x ∷ xs) h = All-insert_sorted x (sort before xs) h.0 (All-sort xs h.1)

-- The converse, row by row.
module _ {ℓ κ} {A : Type ℓ} (before : A → A → Bool) (P : A → Type κ) where
  All-of_insert_sorted : (x : A) (ys : List A) → All P (insert_sorted before x ys) → P x × All P ys
  All-of_insert_sorted x [] h = h
  All-of_insert_sorted x (y ∷ ys) h = elim (Bool-cases (before y x)) [
    | inl e ↦
        let h' : P y × All P (insert_sorted before x ys) = rw e at h in
        let rest = All-of_insert_sorted x ys h'.1 in (rest.0, (h'.0, rest.1))
    | inr e ↦ rw e at h
  ]

  pub All-of_sort : (xs : List A) → All P (sort before xs) → All P xs
  All-of_sort [] h = tt
  All-of_sort (x ∷ xs) h =
      let r = All-of_insert_sorted x (sort before xs) h in (r.0, All-of_sort xs r.1)

module _ {ℓ} {A : Type ℓ} (before : A → A → Bool) where
  Memᴰ-of_insert_sorted :
      (a x : A) (ys : List A) → Memᴰ a (insert_sorted before x ys) → Memᴰ a (x ∷ ys)
  Memᴰ-of_insert_sorted a x [] m = m
  Memᴰ-of_insert_sorted a x (y ∷ ys) m = elim (Bool-cases (before y x)) [
    | inl e ↦ under (Memᴰ-of_insert_sorted a x ys) (rw e at m)
    | inr e ↦ rw e at m
  ]
    where
      swap : Memᴰ a (x ∷ ys) → Memᴰ a (x ∷ y ∷ ys)
      swap (Memᴰ.head p) = Memᴰ.head p
      swap (Memᴰ.tail n) = Memᴰ.tail (Memᴰ.tail n)

      under :
          (Memᴰ a (insert_sorted before x ys) → Memᴰ a (x ∷ ys))
          → Memᴰ a (y ∷ insert_sorted before x ys)
          → Memᴰ a (x ∷ y ∷ ys)
      under rec (Memᴰ.head p) = Memᴰ.tail (Memᴰ.head p)
      under rec (Memᴰ.tail n) = swap (rec n)

-- Sorting by a number, the largest first: no later row exceeds an earlier one.
module _ {ℓ} {A : Type ℓ} (key : A → ℕ) where
  abbrev pub Descending : List A → Type 0
  Descending [] = Unit {0}
  Descending (x ∷ xs) = All (λ y. key y ≤ key x) xs × Descending xs

module _ {ℓ} {A : Type ℓ} (key : A → ℕ) where
  abbrev pub higher : A → A → Bool
  higher a b = ltb (key b) (key a)

  All-weaken : (m n : ℕ) (xs : List A) → m ≤ n → All (λ y. key y ≤ m) xs → All (λ y. key y ≤ n) xs
  All-weaken m n [] h a = tt
  All-weaken m n (x ∷ xs) h a = (omega arith, All-weaken m n xs h a.1)

  All-insert :
      (n : ℕ) (x : A) (xs : List A)
      → key x ≤ n
      → All (λ y. key y ≤ n) xs
      → All (λ y. key y ≤ n) (insert_sorted higher x xs)
  All-insert n x [] h a = (h, tt)
  All-insert n x (y ∷ xs) h a = elim (Bool-cases (higher y x)) [
    | inl e ↦ rw e (a.0, All-insert n x xs h a.1)
    | inr e ↦ rw e (h, a)
  ]

  insert_sorted-Descending :
      (x : A) (xs : List A) → Descending key xs → Descending key (insert_sorted higher x xs)
  insert_sorted-Descending x [] d = (tt, tt)
  insert_sorted-Descending x (y ∷ xs) d = elim (Bool-cases (higher y x)) [
    | inl e ↦ rw e (All-insert (key y) x xs (ground arith) d.0, insert_sorted-Descending x xs d.1)
    | inr e ↦ rw e ((ground arith, All-weaken (key y) (key x) xs (ground arith) d.0), d)
  ]

  pub sort-Descending : (xs : List A) → Descending key (sort higher xs)
  sort-Descending [] = tt
  sort-Descending (x ∷ xs) = insert_sorted-Descending x (sort higher xs) (sort-Descending xs)

module _ {ℓ} {A : Type ℓ} (before : A → A → Bool) where
  pub Memᴰ-of_sort : (a : A) (xs : List A) → Memᴰ a (sort before xs) → Memᴰ a xs
  Memᴰ-of_sort a [] m = m
  Memᴰ-of_sort a (x ∷ xs) m =
      deeper (Memᴰ-of_sort a xs) (Memᴰ-of_insert_sorted before a x (sort before xs) m)
    where
      deeper : (Memᴰ a (sort before xs) → Memᴰ a xs) → Memᴰ a (x ∷ sort before xs) → Memᴰ a (x ∷ xs)
      deeper rec (Memᴰ.head p) = Memᴰ.head p
      deeper rec (Memᴰ.tail n) = Memᴰ.tail (rec n)
