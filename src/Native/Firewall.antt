-- ===== src/Native/Firewall.antt =====
-- What an endpoint enforces of a policy, and what it reports of an isolation (native/linux/adapter.ts).
use bapc_vpn_and_digital_sec.Base.{
  String, ◌≡◌, refl, ◌⊎◌, inl, inr, Bool, true, false, List, [], string_eq, if◌then◌else◌, contains,
}
use bapc_vpn_and_digital_sec.Domain.{Error}
use bapc_vpn_and_digital_sec.Store.Monad.{ok, err}
use bapc_vpn_and_digital_sec.Native.{FirewallRule}
use bapc_vpn_and_digital_sec.Native.Linux.{
  Host, run, require_binary, isolate, restore, rule_line, protocols_text, ports_text, port_clause,
}

-- A rule that names the protocol ANY, or no port.
abbrev pub IsOpen : FirewallRule → Type 0
IsOpen r = (contains r.protocols "ANY" ≡ true) ⊎ (r.ports ≡ [])

module _ (lower : String → String) where
  open_clause :
      (r : FirewallRule)
      → IsOpen r
      → port_clause lower (protocols_text lower r.protocols) (ports_text lower r.ports) ≡ ""
  open_clause r (inl e) = rw e refl
  open_clause r (inr e) = rw e (both _)
    where
      both : (b : Bool) → ◌≡◌ {A = String} (if b then "" else "") ""
      both true = refl
      both false = refl

  -- A rule that names the protocol ANY, or no port, has the same line in the firewall as any other such rule of its
  -- identifier and action: the line says nothing of its protocols, its ports and its zones.
  pub rule_line-IsOpen :
      (r r' : FirewallRule)
      → IsOpen r
      → IsOpen r'
      → r.id ≡ r'.id
      → r.action ≡ r'.action
      → rule_line lower r ≡ rule_line lower r'
  unfolding rule_line
  rule_line-IsOpen r r' h h' e f = rw (rule_line, open_clause r h, open_clause r' h', e, f) refl

module _ {P : Type 0} (host : Host P) where
  -- Where `nft` is found, isolating a node and restoring it succeed on Linux even if every command of
  -- `nft` fails and changes nothing, and then the machine is as it was after the program was looked for.
  pub isolate_unheard :
      (reason : String) (p q : P)
      → require_binary host "nft" p ≡ (ok tt, q)
      → ((args : List String) → (e : Error) × (run host "nft" args q ≡ (err e, q)))
      → (isolate host reason p ≡ (ok tt, q)) × (restore host p ≡ (ok tt, q))
  unfolding isolate restore
  isolate_unheard reason p q found fails = (
    rw (isolate, found) (rw ((fails _).1) (rw ((fails _).1) refl)),
    rw (restore, found) (rw ((fails _).1) refl),
  )
