-- ===== src/SafeApply/Laws.antt =====
-- When a rollout commits and that its wait ends (src/application/safe-apply.ts).
use bapc_vpn_and_digital_sec.Base.{
  ℕ, zero, suc, ◌+◌, ◌*◌, ◌≤◌, ◌<◌, String, ◌≡◌, refl, ◌⊎◌, inl, inr, Bool, true, false, not, ◌&&◌,
  Option, none, some, List, [], ◌∷◌, arith, if◌then◌else◌, ltb, ◌==◌, eq_ℕ, number_eq, string_eq,
  Bool-cases, all, filter, update_where,
}
use bapc_vpn_and_digital_sec.Domain.{Error}
use bapc_vpn_and_digital_sec.Store.{
  Store, RolloutNode, RolloutStatus, pending, succeeded, failed, timed_out, rolled_back,
}
use bapc_vpn_and_digital_sec.Store.Monad.{Result, ok, err}
use bapc_vpn_and_digital_sec.Store.Rollouts.{is_pending, summary, refresh, finalize_timeouts}
use bapc_vpn_and_digital_sec.SafeApply.{
  Probe, answers, rejects, hangs, Schedule, Threshold, is_bad, count_bad, has_failed, Reason,
  failure_reason, after_window, Round, returns, throws, sleeps, refreshed, judge_rows, judge_probe,
  wait_for_outcome,
}

abbrev settled : RolloutNode → Bool
settled r = not (is_pending r.status)

-- The rows bear the commitment out: none is pending, and the failed ones stay within the threshold.
abbrev pub BearsOut : Threshold → ℕ → List RolloutNode → Type 0
BearsOut t targets rows =
    (all (λ r. not (is_pending r.status)) rows ≡ true)
    × (count_bad false rows * t.out_of ≤ t.bad_allowed * targets)

not_ok : (x : Error) (o : Result (Option Reason)) → o ≡ err x → o ≡ ok none → ⊥
not_ok x o e h = cc

returned : (r : Option Reason) (x : Round) → x ≡ returns r → ok r ≡ ok none → x ≡ returns none
returned r x d h = cc

some_pair :
    {A B : Type 0} (x : A × B) (a : A) (b : B) → some x ≡ some (a, b) → (x.0 ≡ a) × (x.1 ≡ b)
some_pair x a b h = (cc, cc)

mul_mono : (a b n : ℕ) → a ≤ b → a * n ≤ b * n
mul_mono a b zero h = omega arith
mul_mono a b (suc n) h = omega (arith, mul_mono a b n h)

is_bad_mono : (x : RolloutStatus) → is_bad false x ≡ true → is_bad true x ≡ true
is_bad_mono pending h = h
is_bad_mono succeeded h = h
is_bad_mono failed h = refl
is_bad_mono timed_out h = refl
is_bad_mono rolled_back h = h

count_bad-le : (rows : List RolloutNode) → count_bad false rows ≤ count_bad true rows
count_bad-le [] = omega arith
count_bad-le (r ∷ rows) = ground (arith, count_bad-le rows, is_bad_mono r.status)

not_none : {r : Reason} → returns (some r) ≡ returns none → ⊥
not_none h = cc

Round-cases :
    (x : Round)
    → ((r : Option Reason) × (x ≡ returns r)) ⊎ ((e : Error) × (x ≡ throws e)) ⊎ (x ≡ sleeps)
Round-cases (returns r) = inl (r, refl)
Round-cases (throws e) = inr (inl (e, refl))
Round-cases sleeps = inr (inr refl)

module _ (t : Threshold) (plan : Schedule) (commit_id : String) (targets deadline : ℕ) where
  picked : {A : Type 0} → eq_ℕ targets 0 ≡ false → (a b : A) → (if eq_ℕ targets 0 then a else b) ≡ b
  picked z a b = rw z refl

  within :
      (rows : List RolloutNode)
      → ltb (t.bad_allowed * targets) (count_bad true rows * t.out_of) ≡ false
      → count_bad false rows * t.out_of ≤ t.bad_allowed * targets
  within rows h =
      ground
        (arith, mul_mono (count_bad false rows) (count_bad true rows) t.out_of (count_bad-le rows))

  judge_rows_commits :
      (rows : List RolloutNode)
      → eq_ℕ targets 0 ≡ false
      → judge_rows t rows targets ≡ returns none
      → BearsOut t targets rows
  unfolding judge_rows failure_reason has_failed
  judge_rows_commits rows z h = ground arith

  finalized :
      (rows : List RolloutNode)
      → all
          (λ r. not (is_pending r.status))
          (filter
            (λ r. r.commit_id == commit_id)
            (update_where
              (λ r. r.commit_id == commit_id && is_pending r.status)
              (λ r. record r { status = timed_out })
              rows))
        ≡ true
  finalized [] = refl
  finalized (r ∷ rows) = ground (arith, finalized rows)

  judge_probe_now : (p : Probe) (s : Store) → (judge_probe t commit_id targets p s).1.now ≡ s.now
  unfolding judge_probe refreshed refresh
  judge_probe_now (rejects e) s = refl
  judge_probe_now hangs s = refl
  judge_probe_now (answers false) s = refl
  judge_probe_now (answers true) s = ground arith

  late : (now : ℕ) → deadline ≤ now + 0 → ltb now deadline ≡ false
  late now l = ground arith

  -- what round `k` decides
  abbrev round : ℕ → Store → Round × Store
  round k s = judge_probe t commit_id targets (plan.probe k) (plan.probing k s)

  -- The wait for the outcome of a rollout ends: where time does not go back while the probe is awaited and
  -- passes while the loop sleeps, as many rounds as there are milliseconds left before the deadline, and
  -- one more, are enough to get a result.
  pub wait_for_outcome_ends :
      (fuel k : ℕ) (s : Store)
      → ((k : ℕ) (s : Store) → s.now ≤ (plan.probing k s).now)
      → ((k : ℕ) (s : Store) → s.now < (plan.sleeping k s).now)
      → deadline ≤ s.now + fuel
      → (r : Result (Option Reason) × Store) × (wait_for_outcome t plan commit_id targets deadline
            (suc fuel)
            k
            s
          ≡ some r)
  unfolding wait_for_outcome
  wait_for_outcome_ends zero k s p q l =
      (after_window t commit_id targets s, rw (wait_for_outcome, late s.now l) refl)
  wait_for_outcome_ends (suc fuel) k s p q l = elim (Bool-cases (ltb s.now deadline)) [
    | inr e ↦ (after_window t commit_id targets s, rw (wait_for_outcome, e) refl)
    | inl e ↦ elim (Round-cases (round k s).0) [
      | inl (r, d) ↦ ((ok r, (round k s).1), rw (wait_for_outcome, e, d) refl)
      | inr (inl (x, d)) ↦ ((err x, (round k s).1), rw (wait_for_outcome, e, d) refl)
      | inr (inr d) ↦
          let (r, w) = wait_for_outcome_ends fuel (k + 1) (plan.sleeping k (round k s).1) p q (
            omega (
              arith,
              l,
              p k s,
              q k (round k s).1,
              judge_probe_now (plan.probe k) (plan.probing k s),
            )) in
          (r, rw (wait_for_outcome, e, d) w)
    ]
  ]

  judge_probe_commits :
      (p : Probe) (s : Store)
      → eq_ℕ targets 0 ≡ false
      → (judge_probe t commit_id targets p s).0 ≡ returns none
      → BearsOut t targets (summary commit_id (judge_probe t commit_id targets p s).1)
  unfolding judge_probe
  judge_probe_commits (rejects e) s z h = cc
  judge_probe_commits hangs s z h = elim (not_none h) [ ]
  judge_probe_commits (answers false) s z h = elim (not_none h) [ ]
  judge_probe_commits (answers true) s z h =
      judge_rows_commits (summary commit_id (refreshed commit_id targets s)) z
        (rw (picked z [] (summary commit_id (refreshed commit_id targets s))) at h)

  after_window_commits :
      (s : Store)
      → eq_ℕ targets 0 ≡ false
      → (after_window t commit_id targets s).0 ≡ ok none
      → BearsOut t targets (summary commit_id (after_window t commit_id targets s).1)
  unfolding after_window failure_reason has_failed summary finalize_timeouts
  after_window_commits s z h = (
    finalized s.rollouts,
    within (summary commit_id (finalize_timeouts commit_id s)) (ground arith),
  )

  -- Where a rollout has a target and the wait for its outcome ends with the decision to commit, then in the
  -- store of that moment no node's row is pending and the share of rows that FAILED is at most the failure
  -- threshold, whatever the agents and the clock did during the wait.
  pub wait_for_outcome_commits :
      (fuel k : ℕ) (s s' : Store)
      → eq_ℕ targets 0 ≡ false
      → wait_for_outcome t plan commit_id targets deadline fuel k s ≡ some (ok none, s')
      → BearsOut t targets (summary commit_id s')
  unfolding wait_for_outcome
  wait_for_outcome_commits zero k s s' z h = cc
  wait_for_outcome_commits (suc fuel) k s s' z h = elim (Bool-cases (ltb s.now deadline)) [
    | inr e ↦
        let q =
          some_pair (after_window t commit_id targets s) (ok none) s'
            (rw (wait_for_outcome, e) at h) in
        rw⁻¹ q.1 (after_window_commits s z q.0)
    | inl e ↦ elim (Round-cases (round k s).0) [
      | inl (r, d) ↦
          let q = some_pair (ok r, (round k s).1) (ok none) s' (rw (wait_for_outcome, e, d) at h) in
          rw⁻¹ q.1 (
            judge_probe_commits (plan.probe k) (plan.probing k s) z
              (returned r (round k s).0 d q.0))
      | inr (inl (x, d)) ↦
          let q =
            some_pair (err x, (round k s).1) (ok none) s' (rw (wait_for_outcome, e, d) at h) in
          elim (not_ok x (err x) refl q.0) [ ]
      | inr (inr d) ↦
          wait_for_outcome_commits fuel (k + 1) (plan.sleeping k (round k s).1) s' z
            (rw (wait_for_outcome, e, d) at h)
    ]
  ]
