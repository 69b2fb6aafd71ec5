-- ===== src/Mesh/Routing/Laws.antt =====
-- The candidates of a path (src/application/relay-routing.ts).
use bapc_vpn_and_digital_sec.Base.{
  ℕ, ◌+◌, ◌*◌, ◌≤◌, ◌<◌, String, ◌≡◌, refl, ◌↔◌, inl, inr, Bool, true, Bool-cases, Option, List, [],
  ◌∷◌, ◌++◌, map, arith, number_eq, string_eq, filter, sort, insert_sorted, sort-perm,
}
use mathlib.Core.List.{Perm}
use bapc_vpn_and_digital_sec.Mesh.Routing.{
  RelayHealth, PathCandidate, score_below, PathKind, local_relay, regional_relay, is_healthy,
  relay_candidate, tier, direct_candidates, candidates, select,
}

tier_healthy :
    (kind : PathKind) (base now : ℕ) (rs : List RelayHealth)
    → tier kind base now rs ≡ map (relay_candidate kind base) (filter (is_healthy now) rs)
unfolding tier
tier_healthy kind base now [] = refl
tier_healthy kind base now (r ∷ rs) = ground (arith, tier_healthy kind base now rs)

-- `base - used/room` of the first, with both rooms for a denominator and the penalty of the second added
abbrev pub over : PathCandidate → PathCandidate → ℕ
over a b = a.base * a.penalty.room * b.penalty.room + b.penalty.used * a.penalty.room

-- No candidate has a higher score than the one before it.
abbrev pub Ranked : List PathCandidate → Type 0
Ranked [] = Unit {0}
Ranked (x ∷ []) = Unit {0}
Ranked (x ∷ y ∷ zs) = (over y x ≤ over x y) × Ranked (y ∷ zs)

abbrev better : PathCandidate → PathCandidate → Bool
better a b = score_below b a

Ranked-insert_sorted :
    (x : PathCandidate) (ys : List PathCandidate) → Ranked ys → Ranked (insert_sorted better x ys)
Ranked-insert_sorted x [] r = tt
Ranked-insert_sorted x (y ∷ []) r = elim (Bool-cases (better y x)) [
  | inl e ↦ rw e (ground arith, tt)
  | inr e ↦ rw e (ground arith, tt)
]
Ranked-insert_sorted x (y ∷ z ∷ zs) r = elim (Bool-cases (better y x)) [
  | inr e ↦ rw e (ground arith, r)
  | inl e ↦
      let rest = Ranked-insert_sorted x (z ∷ zs) r.1 in
      rw e (elim (Bool-cases (better z x)) [
        | inl f ↦ rw f (r.0, rw f at rest)
        | inr f ↦ rw f (ground arith, rw f at rest)
      ])
]

Ranked-sort : (xs : List PathCandidate) → Ranked (sort better xs)
Ranked-sort [] = tt
Ranked-sort (x ∷ xs) = Ranked-insert_sorted x (sort better xs) (Ranked-sort xs)

is_healthy_iff :
    (now : ℕ) (r : RelayHealth)
    → (is_healthy now r ≡ true) ↔ (
        (r.available ≡ true)
        × (now < r.last_heartbeat + 45000)
        × (r.load_percent < 95)
        × (r.capacity_percent.used < 95 * r.capacity_percent.room))
unfolding is_healthy
is_healthy_iff now r = ((λ h. ground arith), λ h. ground arith)

-- What the selection returns is a reordering of the direct path, if there is one, and of one candidate for
-- each healthy relay of the region and each healthy one of the others, in their tiers, and no candidate of
-- it has a higher score than the one before it. Healthy is a relay that is available, was heard of within
-- 45 seconds, and is loaded and filled to less than 95 per cent.
pub select-perm :
    (endpoint : Option String) (local regional : List RelayHealth) (now : ℕ) (r : RelayHealth)
    → Perm (select endpoint local regional now) (
        direct_candidates endpoint
        ++ (map (relay_candidate local_relay 800) (filter (is_healthy now) local)
            ++ map (relay_candidate regional_relay 600) (filter (is_healthy now) regional)))
      × Ranked (select endpoint local regional now)
      × ((is_healthy now r ≡ true) ↔ (
          (r.available ≡ true)
          × (now < r.last_heartbeat + 45000)
          × (r.load_percent < 95)
          × (r.capacity_percent.used < 95 * r.capacity_percent.room)))
unfolding select candidates
select-perm endpoint local regional now r = (
  rw⁻¹ (tier_healthy local_relay 800 now local, tier_healthy regional_relay 600 now regional)
      (sort-perm _ (candidates endpoint local regional now)),
  Ranked-sort (candidates endpoint local regional now),
  is_healthy_iff now r,
)
