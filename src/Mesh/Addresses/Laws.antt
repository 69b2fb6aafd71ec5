-- ===== src/Mesh/Addresses/Laws.antt =====
-- The allocation of mesh addresses (services/mesh-controller/controller.ts).
use bapc_vpn_and_digital_sec.Base.{
  ℕ, zero, suc, ◌+◌, ◌≤◌, ◌<◌, String, ◌≡◌, refl, inl, inr, true, false, List, [], arith, eq_ℕ,
  number_eq, string_eq, Bool-cases,
}
use bapc_vpn_and_digital_sec.Domain.{plain}
use bapc_vpn_and_digital_sec.Store.Monad.{ok, err}
use bapc_vpn_and_digital_sec.Mesh.Addresses.{Addresses, addresses, is_free, next_from, next}

no_number : (n i : ℕ) → n ≤ i → i < n + 0 → ⊥
no_number n i l u = omega arith

module _ (hex : ℕ → String) where
  next_from_found :
      (used4 used6 : List String) (k n : ℕ) (a : Addresses)
      → next_from hex used4 used6 k n ≡ ok a
      → (is_free hex used4 used6 a ≡ true)
        × ((i : ℕ) × (n ≤ i) × (i < n + k) × (a ≡ addresses hex i))
  unfolding next_from
  next_from_found used4 used6 zero n a h = cc
  next_from_found used4 used6 (suc k) n a h =
      elim (Bool-cases (is_free hex used4 used6 (addresses hex n))) [
        | inl e ↦
            let q : addresses hex n ≡ a = ground arith in
            rw⁻¹ q (e, (n, omega arith, omega arith, refl))
        | inr e ↦
            let (f, (i, l, u, q)) = next_from_found used4 used6 k (n + 1) a (rw e at h) in
            (f, (i, omega arith, omega arith, q))
      ]

  next_from_none :
      (used4 used6 : List String) (k n i : ℕ)
      → next_from hex used4 used6 k n ≡ err (plain "mesh address pool exhausted")
      → n ≤ i
      → i < n + k
      → is_free hex used4 used6 (addresses hex i) ≡ false
  unfolding next_from
  next_from_none used4 used6 zero n i h l u = elim (no_number n i l u) [ ]
  next_from_none used4 used6 (suc k) n i h l u = elim (Bool-cases (eq_ℕ n i)) [
    | inl e ↦ let q : n ≡ i = ground arith in rw⁻¹ q (ground arith)
    | inr e ↦ next_from_none used4 used6 k (n + 1) i (ground arith) (ground arith) (omega arith)
  ]

  -- the pool with no address in use
  pub first_free : (k : ℕ) → next_from hex [] [] (suc k) 2 ≡ ok (addresses hex 2)
  unfolding next_from
  first_free k = refl

  -- An allocated pair of addresses is used by no node yet and is the pair of a number in 2 … 65533.
  pub next-is_free :
      (used4 used6 : List String) (a : Addresses)
      → next hex used4 used6 ≡ ok a
      → (is_free hex used4 used6 a ≡ true)
        × ((i : ℕ) × (2 ≤ i) × (i < 65534) × (a ≡ addresses hex i))
  unfolding next
  next-is_free used4 used6 a h = next_from_found used4 used6 65532 2 a h

  -- The pool is reported exhausted only where the pair of every number in 2 … 65533 is in use.
  pub next_exhausted :
      (used4 used6 : List String) (i : ℕ)
      → next hex used4 used6 ≡ err (plain "mesh address pool exhausted")
      → 2 ≤ i
      → i < 65534
      → is_free hex used4 used6 (addresses hex i) ≡ false
  unfolding next
  next_exhausted used4 used6 i h l u = next_from_none used4 used6 65532 2 i h l (omega arith)
