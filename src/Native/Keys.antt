-- ===== src/Native/Keys.antt =====
-- The values that may reach a command: `WG_KEY_RE` and `CIDR_RE` of native/linux/adapter.ts, and their
-- tests. Both expressions match characters of one UTF-16 unit only.
use bapc_vpn_and_digital_sec.Base.{
  ℕ, zero, suc, String, Bool, true, false, not, ◌&&◌, ◌||◌, List, [], ◌∷◌, all, leb, eq_ℕ,
  number_eq, if◌then◌else◌, contains, codes, ◌<+>◌,
}
use bapc_vpn_and_digital_sec.Native.{Peer, Act, reject_if, for_all, ◌>>◌}

abbrev in_range : ℕ → ℕ → ℕ → Bool
in_range low high c = leb low c && leb c high

abbrev is_digit : ℕ → Bool
is_digit c = in_range 48 57 c

-- `[A-Za-z0-9+/]`
abbrev is_base64 : ℕ → Bool
is_base64 c = in_range 65 90 c || in_range 97 122 c || is_digit c || eq_ℕ c 43 || eq_ℕ c 47

-- so many characters of base 64, one of `[AEIMQUYcgkosw048]`, and the padding
unfoldable pub is_key_from : ℕ → List ℕ → Bool
is_key_from zero (c ∷ d ∷ []) = contains (codes "AEIMQUYcgkosw048") c && eq_ℕ d 61
is_key_from zero cs = false
is_key_from (suc n) [] = false
is_key_from (suc n) (c ∷ cs) = is_base64 c && is_key_from n cs

unfoldable pub is_key : String → Bool
unfolding is_key_from
is_key key = is_key_from 42 (codes key)

-- `[0-9a-fA-F.:]`
abbrev is_address_code : ℕ → Bool
is_address_code c = is_digit c || in_range 97 102 c || in_range 65 70 c || eq_ℕ c 46 || eq_ℕ c 58

-- `\d{1,3}$`
abbrev is_prefix_length : List ℕ → Bool
is_prefix_length (a ∷ []) = is_digit a
is_prefix_length (a ∷ b ∷ []) = is_digit a && is_digit b
is_prefix_length (a ∷ b ∷ c ∷ []) = is_digit a && is_digit b && is_digit c
is_prefix_length cs = false

unfoldable pub is_cidr_from : Bool → List ℕ → Bool
is_cidr_from some_before [] = false
is_cidr_from some_before (c ∷ cs) =
    let rest = is_cidr_from true cs in
    if is_address_code c then rest else some_before && eq_ℕ c 47 && is_prefix_length cs

unfoldable pub is_cidr : String → Bool
unfolding is_cidr_from
is_cidr ip = is_cidr_from false (codes ip)

module _ {P : Type 0} where
  abbrev pub assert_key : String → String → Act P (Unit {0})
  assert_key key name = reject_if (not (is_key key)) ("invalid " <+> name)

  abbrev pub assert_cidr_list : List String → Act P (Unit {0})
  assert_cidr_list ips =
      for_all ips (λ ip. reject_if (not (is_cidr ip)) ("invalid allowed-ip " <+> ip))

  -- the loop over the peers of `applyWireGuard` and of `applyPeers`
  unfoldable pub assert_peers : List Peer → Act P (Unit {0})
  assert_peers peers =
      for_all peers
        (λ p. assert_key p.public_key "peer public key" >> assert_cidr_list p.allowed_ips)

-- a peer that the tests let through
abbrev pub is_valid_peer : Peer → Bool
is_valid_peer p = is_key p.public_key && all is_cidr p.allowed_ips
