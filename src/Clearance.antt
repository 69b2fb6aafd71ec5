-- ===== src/Clearance.antt =====
-- integrations/diagnostics-clearance.ts (`DiagnosticsClearanceVerifier.verify`) and `accept` of
-- src/application/integrations.ts. `decode` gives the value that the text after the prefix of a token stands
-- for, `hmac` is the keyed hash of a source, in hexadecimal, and `bytes` is `Buffer.from(value,"hex")`: the
-- bytes of a hexadecimal text, of an array of bytes or of what else it takes, and its error for any other
-- value. `time_of` is the time of a date, `none` where it is NaN, for which the test of the window is false.
pub mod Laws
use bapc_vpn_and_digital_sec.Base.{
  ℕ, ◌+◌, String, Bool, true, false, not, ◌||◌, Option, none, some, List, [], ◌∷◌, ◌==◌, string_eq,
  ltb, codes, starts, ◌<+>◌, if◌then◌else◌,
}
use bapc_vpn_and_digital_sec.Json.{
  Json, null, str, obj, Fields, end, field, get_field, is_text, is_truthy,
}
use bapc_vpn_and_digital_sec.Domain.{Error, plain}
use bapc_vpn_and_digital_sec.Store.{Store}
use bapc_vpn_and_digital_sec.Store.Monad.{
  M, Result, ok, err, throw_if, ◌>>=◌, ◌>>◌, return, gets, modify, or_throw,
}
use bapc_vpn_and_digital_sec.Store.Commands.{publish}
use bapc_vpn_and_digital_sec.Agent.Production.{field_if}

pub record Clearance : Type 0 where
  pub approved_by : Option Json
  pub case_id : Option Json

pub record Signing : Type 0 where
  pub decode : String → Option Json
  pub stringify : Json → String
  pub hmac : String → String → String
  pub bytes : Option Json → Result String
  pub time_of : Option Json → Option ℕ

-- a value that is no null or undefined, of which a field can be read
abbrev pub is_nullish : Option Json → Bool
is_nullish none = true
is_nullish (some null) = true
is_nullish (some v) = false

abbrev pub or_null : Option Json → Json
or_null none = null
or_null (some v) = v

-- the text that is signed
unfoldable pub signed_body : Json → Json
signed_body e = obj (
    field_if "source" (get_field "source" e) (
      field_if "type" (get_field "type" e) (
        field_if "at" (get_field "at" e) (
          field_if "nonce" (get_field "nonce" e)
            (field_if "payload" (get_field "payload" e) end)))))

-- a call that may throw
abbrev pub call : {A : Type 0} → Result A → M A
call r s = (r, s)

abbrev pub outside : ℕ → Option ℕ → Bool
outside now none = false
outside now (some at) = ltb (at + 300000) now || ltb (now + 300000) at

module _ (g : Signing) where
  -- `accept`, for an event of Diagnostics
  unfoldable pub accept : Json → M (Unit {0})
  unfolding signed_body
  accept e = do
    now ← gets (λ s. s.now)
    throw_if (outside now (g.time_of (get_field "at" e))) (plain "event outside replay window")
    expected ← call (g.bytes (some (str (g.hmac "diagnostics" (g.stringify (signed_body e))))))
    signature ← call (g.bytes (get_field "signature" e))
    throw_if (not (expected == signature)) (plain "invalid ecosystem signature")
    modify (publish "ecosystem.diagnostics.forensic.clearance" e)

  -- what is asked of the payload
  unfoldable pub scoped : Json → String → M Clearance
  scoped e node_id = do
    throw_if (is_nullish (get_field "payload" e)) (plain "TypeError")
    let payload = or_null (get_field "payload" e)
    throw_if (not (is_text node_id (get_field "nodeId" payload)))
        (plain "clearance token is not scoped to this node")
    throw_if
        (not (is_truthy (get_field "approvedBy" payload))
          || not (is_truthy (get_field "caseId" payload)))
        (plain "clearance token is missing approvedBy/caseId")
    return (record {
      approved_by = get_field "approvedBy" payload;
      case_id = get_field "caseId" payload;
    })

  unfoldable pub verify : String → String → M Clearance
  unfolding accept scoped
  verify token node_id = do
    throw_if (not (starts (codes "diag-clearance:") (codes token)))
        (plain "signed Diagnostics clearance required")
    e ← or_throw (g.decode token) (plain "malformed Diagnostics clearance token")
    throw_if (is_nullish (some e)) (plain "TypeError")
    throw_if (not (is_text "diagnostics" (get_field "source" e)))
        (plain "clearance must be signed by BAPC Diagnostics")
    throw_if (not (is_text "forensic.clearance" (get_field "type" e)))
        (plain "wrong clearance event type")
    accept e
    scoped e node_id
