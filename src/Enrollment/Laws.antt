-- ===== src/Enrollment/Laws.antt =====
-- What a refused enrollment writes (src/application/enrollment.ts).
use bapc_vpn_and_digital_sec.Base.{
  ℕ, String, ◌≡◌, Bool, true, false, not, ◌&&◌, List, arith, number_eq, string_eq, is_some,
  is_empty,
}
use bapc_vpn_and_digital_sec.Json.{Json}
use bapc_vpn_and_digital_sec.Store.{Store}
use bapc_vpn_and_digital_sec.Store.Monad.{ok}
use bapc_vpn_and_digital_sec.Store.Repositories.{find_by_hardware_id, find_by_public_key}
use bapc_vpn_and_digital_sec.Enrollment.{EnrollmentRequest, Enrolled, admit, create, register}

module _ (forge : String → String → String → ℕ → ℕ → String) (issuer_id : String)
    (hash : Json → String) (attest : String → List ℕ → String → Bool) (ttl : ℕ) where
  -- what `register` asks before it writes
  abbrev pub is_admissible : EnrollmentRequest → Store → Bool
  is_admissible r s =
      not (is_empty r.wire_guard_public_key)
      && not (is_empty r.hardware_id)
      && not (is_empty r.attestation_public_key)
      && not (is_some (find_by_hardware_id r.hardware_id s))
      && not (is_some (find_by_public_key r.wire_guard_public_key s))
      && attest r.hardware_id r.attestation_quote r.attestation_public_key

  -- A request is admitted exactly where its keys and its hardware identifier are given, neither the
  -- hardware nor the key is enrolled, and the attestation verifies: then the device is created. Otherwise
  -- the registration fails and nothing is written.
  pub register_lem :
      (r : EnrollmentRequest) (s : Store)
      → (is_admissible r s ≡ true
          → register forge issuer_id hash attest ttl r s
            ≡ create forge issuer_id hash attest ttl r s)
        × (is_admissible r s ≡ false
            → ((register forge issuer_id hash attest ttl r s).1 ≡ s)
              × ((x : Enrolled) → (register forge issuer_id hash attest ttl r s).0 ≡ ok x → ⊥))
  unfolding register admit
  register_lem r s = (λ h. ground arith, λ h. ground arith)
