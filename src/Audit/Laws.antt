-- ===== src/Audit/Laws.antt =====
-- The chain that src/application/audit.ts keeps.
use bapc_vpn_and_digital_sec.Base.{
  ℕ, String, ◌≡◌, refl, sym, true, some, List, [], ◌∷◌, ◌++◌, arith, number_eq, string_eq, ==_refl,
  eq_of_==,
}
use bapc_vpn_and_digital_sec.Json.{Json}
use bapc_vpn_and_digital_sec.Domain.{AuditRecord}
use bapc_vpn_and_digital_sec.Store.{Store}
use bapc_vpn_and_digital_sec.Store.Repositories.{append_audit, last_audit, audit_chain, last_of}
use bapc_vpn_and_digital_sec.Audit.{
  genesis, hash_of_last, next_sequence, contents, make_record, record_audit, verify_from, verify,
}

-- the hash that the next record after a chain carries
abbrev pub tip : String → List AuditRecord → String
tip previous [] = previous
tip previous (r ∷ rs) = tip r.hash rs

tip-last :
    (previous : String) (r : AuditRecord) (rs : List AuditRecord)
    → tip previous (r ∷ rs) ≡ hash_of_last (last_of (r ∷ rs))
tip-last previous r [] = refl
tip-last previous r (x ∷ rs) = tip-last r.hash x rs

pub tip-genesis : (rs : List AuditRecord) → tip genesis rs ≡ hash_of_last (last_of rs)
tip-genesis [] = refl
tip-genesis (r ∷ rs) = tip-last genesis r rs

last_of-append : {A : Type 0} (xs : List A) (x : A) → last_of (xs ++ x ∷ []) ≡ some x
last_of-append [] x = refl
last_of-append (y ∷ []) x = refl
last_of-append (y ∷ z ∷ xs) x = last_of-append (z ∷ xs) x

module _ (iso : ℕ → String) (digest : Json → String) where
  pub verify_from-append :
      (previous : String) (rs : List AuditRecord) (r : AuditRecord)
      → verify_from iso digest previous rs ≡ true
      → r.previous_hash ≡ tip previous rs
      → r.hash ≡ digest (contents iso digest r)
      → verify_from iso digest previous (rs ++ r ∷ []) ≡ true
  unfolding verify_from
  verify_from-append previous [] r h p q = ground (arith, ==_refl previous, ==_refl r.hash)
  verify_from-append previous (x ∷ rs) r h p q = ground (arith, verify_from-append x.hash rs r)

  -- Recording an action extends a chain that verifies to one that verifies, the record that is returned is
  -- the last of the new chain, and its number is one more than the last number of the chain. It is asked
  -- that the identity column stands one past the last row, which recording keeps.
  pub record_audit-verify :
      (actor action subject : String) (payload : Json) (s : Store)
      → verify iso digest s ≡ true
      → s.audit_identity ≡ next_sequence (last_audit s)
      → (verify iso digest (record_audit iso digest actor action subject payload s).1 ≡ true)
        × (last_audit (record_audit iso digest actor action subject payload s).1
            ≡ some (make_record iso digest actor action subject payload s))
        × ((record_audit iso digest actor action subject payload s).1.audit_identity
            ≡ next_sequence (last_audit (record_audit iso digest actor action subject payload s).1))
  unfolding verify record_audit make_record append_audit last_audit audit_chain contents
  record_audit-verify actor action subject payload s v i = rw i (
      rw (last_of-append s.audits (make_record iso digest actor action subject payload s)) (
        verify_from-append genesis s.audits (make_record iso digest actor action subject payload s)
            v (sym (tip-genesis s.audits)) refl,
        refl,
        refl,
      ))

  pub verify_from-split :
      (previous : String) (xs ys : List AuditRecord)
      → verify_from iso digest previous (xs ++ ys) ≡ true
      → verify_from iso digest (tip previous xs) ys ≡ true
  unfolding verify_from
  verify_from-split previous [] ys h = h
  verify_from-split previous (x ∷ xs) ys h = ground (arith, verify_from-split x.hash xs ys)

  -- If a record of a chain that verifies is replaced by another one and the chain still verifies, then the
  -- two records carry the same hash, and the hash function takes their contents to the same value. So a
  -- change of any record but the last is found unless it is a collision of the hash function.
  pub verify_from_tampered :
      (previous : String) (xs ys : List AuditRecord) (r changed next : AuditRecord)
      → verify_from iso digest previous (xs ++ r ∷ next ∷ ys) ≡ true
      → verify_from iso digest previous (xs ++ changed ∷ next ∷ ys) ≡ true
      → (changed.hash ≡ r.hash)
        × (digest (contents iso digest changed) ≡ digest (contents iso digest r))
  unfolding verify_from
  verify_from_tampered previous xs ys r changed next h g =
      let a = verify_from-split previous xs (r ∷ next ∷ ys) h in
      let b = verify_from-split previous xs (changed ∷ next ∷ ys) g in
      ground (
        arith,
        eq_of_== r.hash (digest (contents iso digest r)),
        eq_of_== changed.hash (digest (contents iso digest changed)),
        eq_of_== next.previous_hash r.hash,
        eq_of_== next.previous_hash changed.hash,
      )
