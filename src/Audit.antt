-- ===== src/Audit.antt =====
-- src/application/audit.ts, `AuditService`: the chain of audit records, each of which carries the hash
-- of the one before. The hash function, the canonical text of a value and the text of a time are
-- parameters: `digest` stands for `hash.digest(canonical(…))` over the record's contents.
pub mod Laws
pub mod Races
use bapc_vpn_and_digital_sec.Base.{
  ℕ, ◌+◌, String, Bool, true, false, not, ◌||◌, List, [], ◌∷◌, Option, none, some, ◌==◌, string_eq,
  if◌then◌else◌,
}
use bapc_vpn_and_digital_sec.Json.{Json, num, str, obj, end, field}
use bapc_vpn_and_digital_sec.Domain.{AuditRecord}
use bapc_vpn_and_digital_sec.Store.{Store}
use bapc_vpn_and_digital_sec.Store.Monad.{M, ok}
use bapc_vpn_and_digital_sec.Store.Repositories.{append_audit, last_audit, audit_chain}

abbrev pub genesis : String
genesis = "GENESIS"

abbrev pub hash_of_last : Option AuditRecord → String
hash_of_last none = genesis
hash_of_last (some r) = r.hash

abbrev pub next_sequence : Option AuditRecord → ℕ
next_sequence none = 0 + 1
next_sequence (some r) = r.sequence + 1

module _ (iso : ℕ → String) (digest : Json → String) where
  -- the object that is hashed
  unfoldable pub contents : AuditRecord → Json
  contents r = obj (
      field "sequence" (num r.sequence) (
        field "at" (str (iso r.at_ms)) (
          field "actor" (str r.actor) (
            field "action" (str r.action) (
              field "subject" (str r.subject)
                (field "payload" r.payload (field "previousHash" (str r.previous_hash) end)))))))

  unfoldable pub make_record : String → String → String → Json → Store → AuditRecord
  unfolding contents
  make_record actor action subject payload s =
      let draft : AuditRecord = record {
        sequence = next_sequence (last_audit s);
        at_ms = s.now;
        actor = actor;
        action = action;
        subject = subject;
        payload = payload;
        previous_hash = hash_of_last (last_audit s);
        hash = "";
      } in
      record draft { hash = digest (contents draft) }

  unfoldable pub record_audit : String → String → String → Json → M AuditRecord
  unfolding make_record
  record_audit actor action subject payload s =
      let r = make_record actor action subject payload s in (ok r, append_audit r s)

  -- the loop of `verify`
  unfoldable pub verify_from : String → List AuditRecord → Bool
  unfolding contents
  verify_from previous [] = true
  verify_from previous (r ∷ rs) =
      if not (r.previous_hash == previous) || not (r.hash == digest (contents r))
      then false
      else verify_from r.hash rs

  unfoldable pub verify : Store → Bool
  unfolding verify_from
  verify s = verify_from genesis (audit_chain s)
