-- ===== src/Agent/Laws.antt =====
-- Reconciliation on an endpoint (src/agent/reconciler.ts).
use bapc_vpn_and_digital_sec.Base.{
  ℕ, ◌≤◌, ◌<◌, String, Bool, true, false, List, [], ◌∷◌, ◌≡◌, refl, ◌==◌, string_eq, arith, all,
  Bool-cases, inl, inr, ◌<+>◌,
}
use bapc_vpn_and_digital_sec.Domain.{Error, plain}
use bapc_vpn_and_digital_sec.Store.{Route}
use bapc_vpn_and_digital_sec.Store.Monad.{ok, err}
use bapc_vpn_and_digital_sec.Agent.{
  AgentPlatform, AgentDesiredState, stale, applied, Report, check_files, repair_routes, reconcile,
}

module _ {P : Type 0} (platform : AgentPlatform P) (route_hash : List Route → String) where
  -- the file has the hash that is expected of it
  abbrev pub is_intact : P → String × String → Bool
  is_intact p f = platform.read_file_hash f.0 p == f.1

  check_files-all :
      (files : List (String × String)) (p : P)
      → all (is_intact p) files ≡ true
      → check_files platform route_hash files p ≡ (ok tt, p)
  unfolding check_files
  check_files-all [] p h = refl
  check_files-all ((path, expected) ∷ files) p h = ground (arith, check_files-all files p)

  check_files_not :
      (files : List (String × String)) (p : P)
      → all (is_intact p) files ≡ false
      → (e : Error) × (check_files platform route_hash files p
          ≡ (err e, platform.clear_transient_credentials p))
  unfolding check_files
  check_files_not [] p h = cc
  check_files_not ((path, expected) ∷ files) p h =
      elim (Bool-cases (platform.read_file_hash path p == expected)) [
        | inl e ↦ let (x, q) = check_files_not files p (ground arith) in (x, rw e q)
        | inr e ↦ (plain ("integrity failure: " <+> path), rw e)
      ]

  -- A state that is older than the revision reached is refused as STALE and changes nothing. A newer one
  -- is applied only if every integrity file has its expected hash: then the routes are repaired, the
  -- firewall plan is applied and the revision becomes the state's. If a file differs, the credentials are
  -- cleared, nothing else happens, and the revision stays.
  pub reconcile_lem :
      (state : AgentDesiredState) (revision : ℕ) (p : P)
      → (state.revision < revision
          → reconcile platform route_hash state revision p
            ≡ (ok (record { status = stale; revision = revision }), revision, p))
        × (revision ≤ state.revision
            → all (is_intact p) state.integrity_files ≡ true
            → reconcile platform route_hash state revision p ≡ (
              ok (record { status = applied; revision = state.revision }),
              state.revision,
              platform.apply_firewall_plan state.firewall_plan
                  (repair_routes platform route_hash state.routes p),
            ))
        × (revision ≤ state.revision
            → all (is_intact p) state.integrity_files ≡ false
            → ((reconcile platform route_hash state revision p).1 ≡ revision)
              × ((reconcile platform route_hash state revision p).2
                  ≡ platform.clear_transient_credentials p)
              × ((r : Report) → (reconcile platform route_hash state revision p).0 ≡ ok r → ⊥))
  unfolding reconcile
  reconcile_lem state revision p = (
    λ l. ground arith,
    λ l h. rw (check_files-all state.integrity_files p h) (ground arith),
    λ l h. let (e, q) = check_files_not state.integrity_files p h in rw q (ground arith),
  )

  -- The revision never falls.
  reconcile-revision :
      (state : AgentDesiredState) (revision : ℕ) (p : P)
      → revision ≤ (reconcile platform route_hash state revision p).1
  unfolding reconcile
  reconcile-revision state revision p = ground arith
