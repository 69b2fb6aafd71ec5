-- ===== src/Audit/Races.antt =====
-- Two writers of the chain at once (src/application/audit.ts): `record` reads the last row, awaits the hash,
-- and appends, in no transaction of its own, so that another writer may read in between.
use bapc_vpn_and_digital_sec.Base.{
  ℕ, ◌+◌, String, ◌≡◌, refl, sym, ◌∙◌, ap, inl, inr, true, false, List, [], ◌∷◌, ◌++◌, arith,
  number_eq, string_eq, ◌==◌, Bool-cases, if◌then◌else◌,
}
use bapc_vpn_and_digital_sec.Json.{Json}
use bapc_vpn_and_digital_sec.Domain.{AuditRecord}
use bapc_vpn_and_digital_sec.Store.{Store}
use bapc_vpn_and_digital_sec.Store.Repositories.{append_audit, last_audit, audit_chain}
use bapc_vpn_and_digital_sec.Audit.{genesis, hash_of_last, make_record, verify_from, verify}
use bapc_vpn_and_digital_sec.Audit.Laws.{tip, verify_from-split}

-- What one writer asks to record.
pub record Entry : Type 0 where
  pub actor : String
  pub action : String
  pub subject : String
  pub payload : Json

module _ (iso : ℕ → String) (digest : Json → String) where
  -- the record that a writer makes of the end of the chain that it reads
  unfoldable pub drafted : Entry → Store → AuditRecord
  drafted e s = make_record iso digest e.actor e.action e.subject e.payload s

  -- Both writers read, then both append. The hash of a row is unique: the table refuses a second row of
  -- the same hash.
  unfoldable pub race : Entry → Entry → Store → Store
  unfolding drafted
  race first second s =
      let once = append_audit (drafted first s) s in
      if (drafted second s).hash == (drafted first s).hash
      then once
      else append_audit (drafted second s) once

  linked :
      (previous : String) (r next : AuditRecord)
      → verify_from iso digest previous (r ∷ next ∷ []) ≡ true
      → (next.previous_hash == r.hash) ≡ true
  unfolding verify_from
  linked previous r next h = ground arith

  append_assoc :
      (xs : List AuditRecord) (a b : AuditRecord) → (xs ++ a ∷ []) ++ b ∷ [] ≡ xs ++ a ∷ b ∷ []
  append_assoc [] a b = refl
  append_assoc (x ∷ xs) a b = rw (append_assoc xs a b) refl

  true-false : true ≡ false → ⊥
  true-false e = cc

  both : Entry → Entry → Store → Store
  both first second s = append_audit (drafted second s) (append_audit (drafted first s) s)

  both_broken :
      (first second : Entry) (s : Store)
      → (hash_of_last (last_audit s) == (drafted first s).hash) ≡ false
      → verify iso digest (both first second s) ≡ false
  unfolding verify both drafted append_audit audit_chain make_record
  both_broken first second s fresh = elim (Bool-cases (verify iso digest (both first second s))) [
    | inr e ↦ e
    | inl e ↦
        let first_row : AuditRecord = record (drafted first s) { sequence = s.audit_identity } in
        let second_row : AuditRecord = record (drafted second s) {
          sequence = s.audit_identity + 1;
        } in
        let chain : verify_from iso digest genesis (s.audits ++ first_row ∷ second_row ∷ [])
            ≡ true =
          ap (verify_from iso digest genesis) (sym (append_assoc s.audits first_row second_row))
          ∙ e in
        let linked_rows =
          linked (tip genesis s.audits) first_row second_row
            (verify_from-split iso digest genesis s.audits (first_row ∷ second_row ∷ []) chain) in
        elim (true-false (sym linked_rows ∙ fresh)) [ ]
  ]

  -- Two writers that both read the end of the chain before either of them appends leave a chain that does
  -- not verify, where their records have different hashes and that of the first is not the hash which it
  -- links to.
  pub race_broken :
      (first second : Entry) (s : Store)
      → (hash_of_last (last_audit s) == (drafted first s).hash) ≡ false
      → ((drafted second s).hash == (drafted first s).hash) ≡ false
      → verify iso digest (race first second s) ≡ false
  unfolding race both
  race_broken first second s fresh other = rw (race, other) (both_broken first second s fresh)
