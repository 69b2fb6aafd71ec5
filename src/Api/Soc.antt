-- ===== src/Api/Soc.antt =====
-- The handlers of the operators' console in src/runtime/production-server.ts: the snapshot and the emergency
-- lockdown.
use bapc_vpn_and_digital_sec.Base.{ℕ, String, true}
use bapc_vpn_and_digital_sec.Json.{Json, bool, str, obj, end, field, get_field}
use bapc_vpn_and_digital_sec.Rest.Router.{Caller}
use bapc_vpn_and_digital_sec.Soc.{lockdown, Snapshot, snapshot}
use bapc_vpn_and_digital_sec.Api.{H, Coercions, ◌>>◌, return, reads, call, audited, text_or}

unfoldable pub soc_snapshot : H Snapshot
soc_snapshot = reads (λ w. snapshot w.store)

module _ (js : Coercions) (iso : ℕ → String) (digest : Json → String) where
  unfoldable pub lockdown_route : Caller → Json → H Json
  lockdown_route claims body = do
    let reason = text_or js "" (get_field "reason" body)
    call (lockdown iso reason claims.sub (text_or js "" (get_field "confirmation" body)))
    audited iso digest claims.sub "EMERGENCY_LOCKDOWN" "ecosystem"
        (obj (field "reason" (str reason) end))
    return (obj (field "accepted" (bool true) (field "scope" (str "ecosystem") end)))
