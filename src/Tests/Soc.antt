-- ===== src/Tests/Soc.antt =====
-- The operators' console at concrete inputs.
use bapc_vpn_and_digital_sec.Base.{
  ℕ, String, ◌≡◌, refl, true, some, [], ◌∷◌, string_eq, number_eq, All, trimmed_length,
}
use bapc_vpn_and_digital_sec.Domain.{JitGrant}
use bapc_vpn_and_digital_sec.Store.{Store}
use bapc_vpn_and_digital_sec.Store.Monad.{ok}
use bapc_vpn_and_digital_sec.Store.Repositories.{get_grant, list_nodes, list_active_grants}
use bapc_vpn_and_digital_sec.Store.Commands.{has_pending}
use bapc_vpn_and_digital_sec.Soc.{lockdown}
use bapc_vpn_and_digital_sec.Soc.Laws.{lockdown-Locked}
use bapc_vpn_and_digital_sec.Tests.{n1, old_grant, one_node}

abbrev no_time : ℕ → String
no_time at = "now"

-- a node and a grant, before the lockdown
abbrev guarded : Store
guarded = record one_node { grants = old_grant ∷ [] }

abbrev after : Store
after = (lockdown no_time "intruders on the mesh" "owner" "LOCKDOWN" guarded).1

lockdown-Locked_example :
    ((lockdown no_time "intruders on the mesh" "owner" "LOCKDOWN" guarded).0 ≡ ok tt)
    × All (λ n. has_pending n.id "QUARANTINE" after ≡ true) (n1 ∷ [])
    × All
        (λ g. (row : JitGrant) × (get_grant g.id after ≡ some row) × (row.terminated ≡ true))
        (old_grant ∷ [])
unfolding trimmed_length list_nodes list_active_grants
lockdown-Locked_example =
    lockdown-Locked no_time "intruders on the mesh" "owner" guarded "LOCKDOWN" refl refl
