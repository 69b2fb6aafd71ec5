-- ===== src/Jit.antt =====
-- src/application/jit.ts, `JitService`: time-boxed grants of access.
pub mod Laws
use bapc_vpn_and_digital_sec.Base.{
  ℕ, ◌+◌, ◌*◌, String, Bool, true, false, not, List, Option, none, some, string_eq, ltb, contains,
  trimmed_length,
}
use bapc_vpn_and_digital_sec.Json.{Json, null, bool, num, str, obj, end, field}
use bapc_vpn_and_digital_sec.Domain.{JitGrant, validation, forbidden, not_found}
use bapc_vpn_and_digital_sec.Store.{Store}
use bapc_vpn_and_digital_sec.Store.Monad.{
  M, ◌>>=◌, ◌>>◌, return, gets, modify, throw_if, or_throw, fresh_id, then_run, ok, err,
}
use bapc_vpn_and_digital_sec.Store.Repositories.{get_grant, save_grant}
use bapc_vpn_and_digital_sec.Store.Commands.{publish}

abbrev pub text_or_null : Option String → Json
text_or_null none = null
text_or_null (some s) = str s

-- the event that each operation publishes: the grant itself
unfoldable pub grant_json : JitGrant → Json
grant_json g = obj (
    field "id" (str g.id) (
      field "userId" (str g.user_id) (
        field "targetResource" (str g.target_resource) (
          field "targetZone" (str g.target_zone) (
            field "justification" (str g.justification) (
              field "approvedBy" (text_or_null g.approved_by) (
                field "grantedAt" (num g.granted_at) (
                  field "expiresAt" (num g.expires_at) (
                    field "terminated" (bool g.terminated)
                      (field "terminationReason" (text_or_null g.termination_reason) end))))))))))

-- `durationMinutes` is a number when the code runs: the three values of its type are not checked.
unfoldable pub new_grant : String → String → String → ℕ → String → Store → JitGrant
new_grant user_id resource zone minutes justification s = record {
  id = s.uuid s.issued;
  user_id = user_id;
  target_resource = resource;
  target_zone = zone;
  justification = justification;
  approved_by = none;
  granted_at = s.now;
  expires_at = s.now + minutes * 60000;
  terminated = false;
  termination_reason = none;
}

unfoldable pub request : String → String → String → ℕ → String → M JitGrant
unfolding new_grant
request user_id resource zone minutes justification = do
  throw_if (ltb (trimmed_length justification) 12)
      (validation "a meaningful justification is required")
  grant ← gets (new_grant user_id resource zone minutes justification)
  fresh_id
  modify (save_grant grant)
  modify (publish "security.jit.requested" (grant_json grant))
  return grant

unfoldable pub approve : String → String → List String → M JitGrant
approve grant_id approver_id roles = do
  throw_if (not (contains roles "security-approver")) (forbidden "security approver role required")
  found ← gets (get_grant grant_id)
  g ← or_throw found (not_found "JIT grant not found")
  let updated = record g { approved_by = some approver_id }
  modify (save_grant updated)
  modify (publish "security.jit.approved" (grant_json updated))
  return updated

unfoldable pub terminate : String → String → M JitGrant
terminate grant_id reason = do
  found ← gets (get_grant grant_id)
  g ← or_throw found (not_found "JIT grant not found")
  let updated = record g { terminated = true; termination_reason = some reason }
  modify (save_grant updated)
  modify (publish "security.jit.terminated" (grant_json updated))
  return updated
