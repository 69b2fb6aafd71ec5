-- ===== src/Recovery/Laws.antt =====
-- Checkpoints and rollbacks (services/oob-controller).
use bapc_vpn_and_digital_sec.Base.{
  ℕ, ◌≤◌, String, false, ◌&&◌, List, [], ◌∷◌, ◌≡◌, ◌==◌, string_eq, arith, length, filter,
  update_where, ==_refl, eq_of_==, if◌then◌else◌, Bool-cases, inl, inr, filter-append,
  length-append,
}
use bapc_vpn_and_digital_sec.Json.{Json}
use bapc_vpn_and_digital_sec.Store.Monad.{ok}
use bapc_vpn_and_digital_sec.Recovery.{Snapshot, is_lkg, retired, save, Channel, checkpoint}

abbrev pub count_lkg : String → List Snapshot → ℕ
count_lkg scope rows = length (filter (is_lkg scope) rows)

count-retired :
    (scope other : String) (rows : List Snapshot)
    → count_lkg other (update_where (is_lkg scope) retired rows)
      ≡ (if scope == other then 0 else count_lkg other rows)
count-retired scope other [] = elim (Bool-cases (scope == other)) [ inl e ↦ rw e | inr e ↦ rw e ]
count-retired scope other (r ∷ rows) = ground (
  arith,
  count-retired scope other rows,
  eq_of_== r.scope scope,
  eq_of_== r.scope other,
  ==_refl other,
  eq_of_== scope other,
  ==_refl scope,
)

-- A scope never has two last-known-good snapshots: saving one keeps the bound at every scope.
pub save-one_lkg :
    (r : Snapshot) (rows : List Snapshot)
    → ((scope : String) → count_lkg scope rows ≤ 1)
    → (scope : String) → count_lkg scope (save r rows) ≤ 1
unfolding save
save-one_lkg r rows h scope =
    simp
      (
        filter-append (is_lkg scope)
            (if r.lkg then update_where (is_lkg r.scope) retired rows else rows) (r ∷ []),
        length-append
            (filter (is_lkg scope)
              (if r.lkg then update_where (is_lkg r.scope) retired rows else rows))
            (filter (is_lkg scope) (r ∷ [])),
      )
      (ground (arith, h scope, count-retired r.scope scope rows))

module _ {C : Type 0} (ch : Channel C) (digest : Json → String) (jsonb : Json → Json) where
  -- A checkpoint is refused, and no snapshot is recorded, where the channel is unhealthy or does not
  -- verify what was pushed.
  pub checkpoint_refused :
      (id scope actor : String) (document : Json) (rows : List Snapshot) (c : C)
      → ch.healthy c && ch.verify scope (digest document) (ch.push scope document c) ≡ false
      → ((checkpoint ch digest jsonb id scope document actor rows c).1 ≡ rows)
        × ((r : Snapshot)
            → (checkpoint ch digest jsonb id scope document actor rows c).0 ≡ ok r
            → ⊥)
  unfolding checkpoint
  checkpoint_refused id scope actor document rows c h = ground arith
