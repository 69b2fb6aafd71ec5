-- ===== src/Mesh/Addresses.antt =====
-- `AddressAllocator` of services/mesh-controller/controller.ts. `hex` prints a number in base 16.
pub mod Laws
use bapc_vpn_and_digital_sec.Base.{
  ℕ, zero, suc, ◌+◌, ◌*◌, ◌/◌, ◌%◌, String, Bool, true, false, not, ◌&&◌, ◌||◌, List, Option, none,
  some, string_eq, if◌then◌else◌, contains, decimal, ◌<+>◌,
}
use bapc_vpn_and_digital_sec.Domain.{plain}
use bapc_vpn_and_digital_sec.Store.Monad.{Result, ok, err}

pub record Addresses : Type 0 where
  pub ipv4 : String
  pub ipv6 : String

-- the third byte, `a%256`, and the fourth, `b`
abbrev pub third_byte : ℕ → ℕ
third_byte n = (10 + n / 254) % 256

abbrev pub fourth_byte : ℕ → ℕ
fourth_byte n = n % 254 + 1

module _ (hex : ℕ → String) where
  unfoldable pub addresses : ℕ → Addresses
  addresses n = record {
    ipv4 = "10.144." <+> decimal (third_byte n) <+> "." <+> decimal (fourth_byte n);
    ipv6 = "fd14:4b41:5043::" <+> hex n;
  }

  abbrev pub is_free : List String → List String → Addresses → Bool
  is_free used4 used6 a = not (contains used4 a.ipv4) && not (contains used6 a.ipv6)

  -- the loop of `next` over the `k` numbers from `n`
  unfoldable pub next_from : List String → List String → ℕ → ℕ → Result Addresses
  next_from used4 used6 zero n = err (plain "mesh address pool exhausted")
  next_from used4 used6 (suc k) n =
      let rest = next_from used4 used6 k (n + 1) in
      if is_free used4 used6 (addresses n) then ok (addresses n) else rest

  unfoldable pub next : List String → List String → Result Addresses
  unfolding next_from
  next used4 used6 = next_from used4 used6 65532 2
