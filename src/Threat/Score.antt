-- ===== src/Threat/Score.antt =====
-- The score of a batch of signals (services/threat-engine/engine.ts).
use bapc_vpn_and_digital_sec.Base.{ℕ, ◌+◌, ◌≤◌, List, [], ◌∷◌, ◌++◌, ◌≡◌, arith}
use bapc_vpn_and_digital_sec.Domain.{Severity, info, warn, critical, emergency}
use bapc_vpn_and_digital_sec.Threat.{ThreatSignal, raw_score, score, severity_of}

abbrev pub rank : Severity → ℕ
rank info = 0
rank warn = 1
rank critical = 2
rank emergency = 3

pub raw_score-append :
    (xs ys : List ThreatSignal) → raw_score (xs ++ ys) ≡ raw_score xs + raw_score ys
unfolding raw_score
raw_score-append [] ys = omega arith
raw_score-append (x ∷ xs) ys = omega (arith, raw_score-append xs ys)

score_mono : (xs ys : List ThreatSignal) → raw_score xs ≤ raw_score ys → score xs ≤ score ys
unfolding score
score_mono xs ys h = omega arith

severity_mono : (m n : ℕ) → m ≤ n → rank (severity_of m) ≤ rank (severity_of n)
unfolding severity_of
severity_mono m n h = ground arith

-- A score lies between 0 and 100, and more signals, before or after the others, lower neither the
-- score nor the severity that it stands for.
pub score-append :
    (before signals after : List ThreatSignal)
    → (score (before ++ (signals ++ after)) ≤ 100)
      × (score signals ≤ score (before ++ (signals ++ after)))
      × (rank (severity_of (score signals))
          ≤ rank (severity_of (score (before ++ (signals ++ after)))))
unfolding score
score-append before signals after =
    let grows =
      score_mono signals (before ++ (signals ++ after)) (
        omega
          (arith, raw_score-append before (signals ++ after), raw_score-append signals after)) in
    (capped (before ++ (signals ++ after)), grows, severity_mono _ _ grows)
  where
    capped : (xs : List ThreatSignal) → score xs ≤ 100
    capped xs = omega arith
