-- ===== src/Native/Laws.antt =====
-- What the adapters refuse (native/linux/adapter.ts and native/windows/adapter.ts).
use bapc_vpn_and_digital_sec.Base.{
  ℕ, String, ◌≡◌, refl, ap, ◌∙◌, ◌⊎◌, inl, inr, Bool, true, false, ◌&&◌, Option, List, [], ◌∷◌, all,
  string_eq, Bool-cases, ◌<+>◌,
}
use bapc_vpn_and_digital_sec.Domain.{Error, plain}
use bapc_vpn_and_digital_sec.Store.Monad.{Result, ok, err}
use bapc_vpn_and_digital_sec.Native.{Peer, WireGuardInput}
use bapc_vpn_and_digital_sec.Native.Keys.{
  is_key, is_cidr, is_valid_peer, assert_cidr_list, assert_peers,
}
use bapc_vpn_and_digital_sec.Native.Operations.{
  Operation, binaries_of, operate, wire_guard, peers, private_key, firewall, roll_back, kill_switch,
  dns, isolation, restoration, routes, new_routes, credentials,
}
use bapc_vpn_and_digital_sec.Native.Windows.{WindowsHost, assert_keys, install_tunnel}
use bapc_vpn_and_digital_sec.Native.Windows as Windows
use bapc_vpn_and_digital_sec.Native.Linux.{
  Host, run, require_binary, bring_up, apply_wire_guard, apply_peers, rotate_private_key,
  apply_firewall, rollback_firewall, set_kill_switch, set_dns, isolate, restore, read_routes,
  replace_routes, clear_transient_credentials,
}

module _ {P : Type 0} (host : Host P) (lower : String → String)
    (number_of : String → Option ℕ) where
  abbrev pub not_found : String → Error
  not_found name = plain ("required binary '" <+> name <+> "' not found on PATH")

  missing :
      (name : String) (p p' : P) (e : Error)
      → run host "which" (name ∷ []) p ≡ (err e, p')
      → require_binary host name p ≡ (err (not_found name), p')
  unfolding require_binary
  missing name p p' e h = rw (require_binary, h) refl

  -- The programs up to the last one before `name` are found, `name` is not, and the machine is then `p'`.
  abbrev pub Lacks : List String → P → String → P → Type 0
  Lacks [] p name p' = ⊥
  Lacks (b ∷ bs) p name p' =
      ((b ≡ name) × ((e : Error) × (run host "which" (b ∷ []) p ≡ (err e, p'))))
      ⊎ ((out : String) × (q : P) × (run host "which" (b ∷ []) p ≡ (ok out, q))
          × Lacks bs q name p')

  only_missing :
      (b name : String) (p p' : P)
      → Lacks (b ∷ []) p name p'
      → require_binary host b p ≡ (err (not_found name), p')
  only_missing b name p p' (inl (same, (e, h))) =
      missing b p p' e h ∙ ap (λ n. (err (not_found n), p')) same
  only_missing b name p p' (inr (out, q, h, never)) = elim never [ ]

  found :
      (b : String) (p q : P) (out : String)
      → run host "which" (b ∷ []) p ≡ (ok out, q)
      → require_binary host b p ≡ (ok tt, q)
  unfolding require_binary
  found b p q out h = rw (require_binary, h) refl

  wire_guard_missing :
      (input : WireGuardInput) (p p' : P) (name : String)
      → Lacks ("wg" ∷ "ip" ∷ []) p name p'
      → apply_wire_guard host input p ≡ (err (not_found name), p')
  unfolding apply_wire_guard
  wire_guard_missing input p p' name (inl h) =
      rw (apply_wire_guard, only_missing "wg" name p p' (inl h)) refl
  wire_guard_missing input p p' name (inr (out, q, h, rest)) =
      rw (apply_wire_guard, found "wg" p q out h, only_missing "ip" name q p' rest) refl

  -- An operation of the Linux adapter that looks for its programs, which are `wg` and `ip` for a tunnel and one
  -- for any other, and does not find one of them, fails with a message that names the program, and nothing
  -- was done but to look for it and for those before it. The posture is collected without such a look.
  pub operate_missing :
      (o : Operation) (p p' : P) (name : String)
      → Lacks (binaries_of o) p name p'
      → operate host lower number_of o p ≡ (err (not_found name), p')
  unfolding apply_wire_guard apply_peers rotate_private_key apply_firewall rollback_firewall
      set_kill_switch set_dns isolate restore read_routes replace_routes clear_transient_credentials
  operate_missing (wire_guard input) p p' name h = wire_guard_missing input p p' name h
  operate_missing (peers ps) p p' name h = rw (apply_peers, only_missing "wg" name p p' h) refl
  operate_missing (private_key reference) p p' name h =
      rw (rotate_private_key, only_missing "wg" name p p' h) refl
  operate_missing (firewall input) p p' name h =
      rw (apply_firewall, only_missing "nft" name p p' h) refl
  operate_missing (roll_back id) p p' name h =
      rw (rollback_firewall, only_missing "nft" name p p' h) refl
  operate_missing (kill_switch true) p p' name h = rw (only_missing "nft" name p p' h) refl
  operate_missing (kill_switch false) p p' name h = rw (only_missing "nft" name p p' h) refl
  operate_missing (dns servers) p p' name h =
      rw (set_dns, only_missing "resolvectl" name p p' h) refl
  operate_missing (isolation reason) p p' name h = rw (isolate, only_missing "nft" name p p' h) refl
  operate_missing restoration p p' name h = rw (restore, only_missing "nft" name p p' h) refl
  operate_missing routes p p' name h = rw (read_routes, only_missing "ip" name p p' h) refl
  operate_missing (new_routes rs) p p' name h =
      rw (replace_routes, only_missing "ip" name p p' h) refl
  operate_missing credentials p p' name h =
      rw (clear_transient_credentials, only_missing "ip" name p p' h) refl

-- The step was refused and did nothing.
abbrev pub Refused : {P A : Type 0} → Result A × P → P → Type 0
Refused r p = (e : Error) × (r ≡ (err e, p))

-- A test lets the step go on, or it is refused.
abbrev pub Tested : {P A : Type 0} → Bool → Result A × P → Result A × P → P → Type 0
Tested b r next p = ((b ≡ true) × (r ≡ next)) ⊎ ((b ≡ false) × Refused r p)

module _ {P : Type 0} where
  assert_cidr_list_lem :
      (ips : List String) (p : P) → Tested (all is_cidr ips) (assert_cidr_list ips p) (ok tt, p) p
  assert_cidr_list_lem [] p = inl (refl, refl)
  assert_cidr_list_lem (ip ∷ ips) p = elim (Bool-cases (is_cidr ip)) [
    | inr e ↦ rw e (inr (refl, (_, refl)))
    | inl e ↦ rw e (assert_cidr_list_lem ips p)
  ]

  assert_peers_lem :
      (ps : List Peer) (p : P) → Tested (all is_valid_peer ps) (assert_peers ps p) (ok tt, p) p
  unfolding assert_peers
  assert_peers_lem [] p = inl (refl, refl)
  assert_peers_lem (x ∷ ps) p = elim (Bool-cases (is_key x.public_key)) [
    | inr e ↦ rw e (inr (refl, (_, refl)))
    | inl e ↦ elim (assert_cidr_list_lem x.allowed_ips p) [
      | inl (a, r) ↦ rw (e, a, r) (assert_peers_lem ps p)
      | inr (a, (f, r)) ↦ rw (e, a, r) (inr (refl, (f, refl)))
    ]
  ]

  assert_keys_lem :
      (host : WindowsHost P) (ps : List Peer) (p : P)
      → Tested (all (λ x. is_key x.public_key) ps) (assert_keys host ps p) (ok tt, p) p
  unfolding assert_keys
  assert_keys_lem host [] p = inl (refl, refl)
  assert_keys_lem host (x ∷ ps) p = elim (Bool-cases (is_key x.public_key)) [
    | inr e ↦ rw e (inr (refl, (_, refl)))
    | inl e ↦ rw e (assert_keys_lem host ps p)
  ]

  linux_checked :
      (host : Host P) (input : WireGuardInput) (p q r : P)
      → require_binary host "wg" p ≡ (ok tt, q)
      → require_binary host "ip" q ≡ (ok tt, r)
      → Tested
          (all is_valid_peer input.peers && all is_cidr input.addresses)
          (apply_wire_guard host input p)
          (bring_up host input r)
          r
  unfolding apply_wire_guard
  linux_checked host input p q r wg ip = elim (assert_peers_lem input.peers r) [
    | inr (a, (e, h)) ↦ rw (apply_wire_guard, wg, ip, a, h) (inr (refl, (e, refl)))
    | inl (a, h) ↦ elim (assert_cidr_list_lem input.addresses r) [
      | inr (b, (e, k)) ↦ rw (apply_wire_guard, wg, ip, a, h, b, k) (inr (refl, (e, refl)))
      | inl (b, k) ↦ rw (apply_wire_guard, wg, ip, a, h, b, k) (inl (refl, refl))
    ]
  ]

  windows_checked :
      (host : WindowsHost P) (input : WireGuardInput) (p : P)
      → Tested
          (all (λ x. is_key x.public_key) input.peers)
          (Windows.apply_wire_guard host input p)
          (install_tunnel host input p)
          p
  unfolding Windows.apply_wire_guard
  windows_checked host input p = elim (assert_keys_lem host input.peers p) [
    | inl (a, h) ↦ rw (Windows.apply_wire_guard, a, h) (inl (refl, refl))
    | inr (a, (e, h)) ↦ rw (Windows.apply_wire_guard, a, h) (inr (refl, (e, refl)))
  ]

  -- A tunnel is set up only with well-formed values. On Linux, `wg` and `ip` being found, the adapter goes on if
  -- every peer's key and allowed addresses and every address of the interface pass their tests, and
  -- otherwise refuses and does no more; on Windows likewise with the keys of the peers.
  pub wire_guard_checked :
      (host : Host P) (windows : WindowsHost P) (input : WireGuardInput) (p q r : P)
      → require_binary host "wg" p ≡ (ok tt, q)
      → require_binary host "ip" q ≡ (ok tt, r)
      → Tested
          (all is_valid_peer input.peers && all is_cidr input.addresses)
          (apply_wire_guard host input p)
          (bring_up host input r)
          r
        × Tested
            (all (λ x. is_key x.public_key) input.peers)
            (Windows.apply_wire_guard windows input p)
            (install_tunnel windows input p)
            p
  wire_guard_checked host windows input p q r wg ip =
      (linux_checked host input p q r wg ip, windows_checked windows input p)
