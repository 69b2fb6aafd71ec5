-- ===== src/Tests/Clearance.antt =====
-- A clearance token at a concrete signing scheme.
use bapc_vpn_and_digital_sec.Base.{String, ◌≡◌, refl, true, false, Option, some, codes, starts}
use bapc_vpn_and_digital_sec.Json.{Json, str, obj, end, field, get_field, is_text}
use bapc_vpn_and_digital_sec.Domain.{plain}
use bapc_vpn_and_digital_sec.Store.{Store}
use bapc_vpn_and_digital_sec.Store.Monad.{Result, ok, err}
use bapc_vpn_and_digital_sec.Store.Commands.{publish}
use bapc_vpn_and_digital_sec.Clearance.{Clearance, Signing, outside, verify, accept, scoped}
use bapc_vpn_and_digital_sec.Clearance.Laws.{IsSigned, IsScoped, verify_sound, verify_again}
use bapc_vpn_and_digital_sec.Tests.{one_node}

abbrev event : Json
event = obj (
    field "source" (str "diagnostics") (
      field "type" (str "forensic.clearance") (
        field "at" (str "now") (
          field "nonce" (str "n") (
            field "payload"
              (obj (
                field "nodeId" (str "n1")
                  (field "approvedBy" (str "carol") (field "caseId" (str "c7") end))))
              (field "signature" (str "seal") end))))))

abbrev read_text : Option Json → Result String
read_text (some (str s)) = ok s
read_text v = err (plain "TypeError")

abbrev signing : Signing
signing = record {
  decode = λ token. some event;
  stringify = λ v. "body";
  hmac = λ source body. "seal";
  bytes = read_text;
  time_of = λ at. some 1000;
}

abbrev token : String
token = "diag-clearance:abc"

abbrev cleared : Clearance
cleared = record { approved_by = some (str "carol"); case_id = some (str "c7") }

abbrev after : Store
after = publish "ecosystem.diagnostics.forensic.clearance" event one_node

verify_sound_example :
    (starts (codes "diag-clearance:") (codes token) ≡ true)
    × ((e : Json) × (signing.decode token ≡ some e)
        × (is_text "diagnostics" (get_field "source" e) ≡ true)
        × (is_text "forensic.clearance" (get_field "type" e) ≡ true)
        × (outside one_node.now (signing.time_of (get_field "at" e)) ≡ false)
        × IsSigned signing e
        × IsScoped signing e "n1" cleared
        × (after ≡ publish "ecosystem.diagnostics.forensic.clearance" e one_node))
unfolding verify accept scoped
verify_sound_example = verify_sound signing token "n1" cleared one_node after refl

verify_again_example : (verify signing token "n1" after).0 ≡ (verify signing token "n1" one_node).0
unfolding publish
verify_again_example = verify_again signing token "n1" one_node after refl
