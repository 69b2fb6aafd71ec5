-- ===== src/Soc/Laws.antt =====
-- What a lockdown does (apps/security-soc/pg-soc-actions.ts), and the counts of the console.
use bapc_vpn_and_digital_sec.Base.{
  ℕ, String, ◌≡◌, refl, sym, ◌∙◌, inl, inr, true, false, some, List, [], ◌∷◌, arith, ◌==◌,
  number_eq, string_eq, eq_of_==, Bool-cases, Option-cases, ltb, filter, length, find-upsert_new,
  find-upsert_old, find-upsert_other, All, All-filter, All-sort, All-implied, filter_whole,
  trimmed_length,
}
use mathlib.Core.Path.{subst}
use bapc_vpn_and_digital_sec.Json.{Json}
use bapc_vpn_and_digital_sec.Domain.{MeshNode, JitGrant}
use bapc_vpn_and_digital_sec.Store.{Store}
use bapc_vpn_and_digital_sec.Store.Monad.{Result, ok}
use bapc_vpn_and_digital_sec.Store.Repositories.{
  get_grant, list_nodes, list_active_grants, save_grant,
}
use bapc_vpn_and_digital_sec.Store.Commands.{has_pending, publish}
use bapc_vpn_and_digital_sec.Soc.Isolation.{isolate_all_lem, list_nodes-IsEnrolled}
use bapc_vpn_and_digital_sec.Soc.{
  is_active, ended, end_grants, isolate_all, lockdown_event, emergency_lockdown, lockdown, counts,
}

-- a row that stands for a grant that was ended
abbrev IsEnded : Store → String → Type 0
IsEnded s id = (row : JitGrant) × (get_grant id s ≡ some row) × (row.terminated ≡ true)

save_grant-IsEnded :
    (reason : String) (g : JitGrant) (s : Store) → IsEnded (save_grant (ended reason g) s) g.id
unfolding save_grant get_grant
save_grant-IsEnded reason g s = elim (Option-cases (get_grant g.id s)) [
  | inl e ↦ (ended reason g, find-upsert_new (λ x. x.id) g.id _ _ s.grants refl e, refl)
  | inr (x, e) ↦ (_, find-upsert_old (λ x. x.id) g.id _ _ s.grants x refl e, refl)
]

save_grant-keeps :
    (reason : String) (g : JitGrant) (k : String) (s : Store)
    → IsEnded s k
    → IsEnded (save_grant (ended reason g) s) k
unfolding save_grant get_grant
save_grant-keeps reason g k s (row, e, t) = elim (Bool-cases (g.id == k)) [
  | inl same ↦
      subst (IsEnded (save_grant (ended reason g) s)) (eq_of_== g.id k same)
        (save_grant-IsEnded reason g s)
  | inr other ↦
      (row, find-upsert_other (λ x. x.id) g.id _ _ k s.grants other refl (λ x. refl) ∙ e, t)
]

end_grants-keeps :
    (reason : String) (gs : List JitGrant) (k : String) (s : Store)
    → IsEnded s k
    → IsEnded (end_grants reason gs s) k
unfolding end_grants
end_grants-keeps reason [] k s h = h
end_grants-keeps reason (g ∷ gs) k s h =
    end_grants-keeps reason gs k _ (save_grant-keeps reason g k s h)

end_grants-IsEnded :
    (reason : String) (gs : List JitGrant) (s : Store)
    → All (λ g. IsEnded (end_grants reason gs s) g.id) gs
unfolding end_grants
end_grants-IsEnded reason [] s = tt
end_grants-IsEnded reason (g ∷ gs) s = (
  end_grants-keeps reason gs g.id _ (save_grant-IsEnded reason g s),
  end_grants-IsEnded reason gs (save_grant (ended reason g) s),
)

-- What the loop over the grants leaves alone.
end_grants-keeps_commands :
    (reason : String) (gs : List JitGrant) (s : Store)
    → ((end_grants reason gs s).commands ≡ s.commands) × ((end_grants reason gs s).now ≡ s.now)
unfolding end_grants save_grant
end_grants-keeps_commands reason [] s = (refl, refl)
end_grants-keeps_commands reason (g ∷ gs) s =
    end_grants-keeps_commands reason gs (save_grant (ended reason g) s)

has_pending-of :
    (id : String) (s t : Store)
    → t.commands ≡ s.commands
    → t.now ≡ s.now
    → has_pending id "QUARANTINE" t ≡ has_pending id "QUARANTINE" s
unfolding has_pending
has_pending-of id s t e f = rw (e, f) refl

-- `list` of the nodes' repository reads only the active ones.
list_nodes-active : (s : Store) → filter is_active (list_nodes s) ≡ list_nodes s
unfolding list_nodes
list_nodes-active s = filter_whole is_active _ (All-sort _ _ _ (All-filter (λ n. n.active) s.nodes))

-- The console shows as many active nodes as nodes, whatever the nodes are.
pub counts_nodes : (s : Store) → (counts s).active_nodes ≡ (counts s).nodes
unfolding counts
counts_nodes s = rw (list_nodes-active s) refl

list_active_grants-of :
    (now : ℕ) (s t : Store)
    → t.grants ≡ s.grants
    → list_active_grants now t ≡ list_active_grants now s
unfolding list_active_grants
list_active_grants-of now s t e = rw e refl

IsEnded-publish :
    (topic : String) (event : Json) (s : Store) (id : String)
    → IsEnded s id
    → IsEnded (publish topic event s) id
unfolding publish get_grant
IsEnded-publish topic event s id h = h

has_pending-publish :
    (topic : String) (event : Json) (s : Store) (id : String)
    → has_pending id "QUARANTINE" s ≡ true
    → has_pending id "QUARANTINE" (publish topic event s) ≡ true
unfolding publish has_pending
has_pending-publish topic event s id h = h

module _ (iso : ℕ → String) (reason actor : String) (s : Store) where
  abbrev nodes : List MeshNode
  nodes = filter is_active (list_nodes s)

  abbrev isolated : Store
  isolated = (isolate_all nodes s).1

  abbrev grants : List JitGrant
  grants = list_active_grants s.now isolated

  abbrev Locked : Result (Unit {0}) × Store → Type 0
  Locked r =
      (r.0 ≡ ok tt)
      × All (λ n. has_pending n.id "QUARANTINE" r.1 ≡ true) (list_nodes s)
      × All (λ g. IsEnded r.1 g.id) (list_active_grants s.now s)

  abbrev event : String → Json
  event confirmation =
      lockdown_event iso reason actor confirmation s.now (length nodes) (length grants)

  run_of_lockdown :
      (confirmation : String)
      → (isolate_all nodes s).0 ≡ ok tt
      → emergency_lockdown iso reason actor confirmation s ≡ (
        ok tt,
        publish "security.emergency_lockdown"
            (event confirmation)
            (end_grants reason grants isolated),
      )
  unfolding emergency_lockdown
  run_of_lockdown confirmation e = ground (arith, e)

  emergency_lockdown-Locked :
      (confirmation : String) → Locked (emergency_lockdown iso reason actor confirmation s)
  emergency_lockdown-Locked confirmation =
      let (total, more, pending) = isolate_all_lem nodes s (list_nodes-IsEnrolled s) in
      let (same, clock) = end_grants-keeps_commands reason grants isolated in
      let later = end_grants reason grants isolated in
      subst Locked (sym (run_of_lockdown confirmation total)) (
        refl,
        subst
            (All (λ n. has_pending n.id "QUARANTINE" (publish _ (event confirmation) later) ≡ true))
            (list_nodes-active s)
            (All-implied nodes
              (λ n p.
                has_pending-publish _ (event confirmation) later n.id
                  (has_pending-of n.id isolated later same clock ∙ p))
              pending),
        subst (All (λ g. IsEnded (publish _ (event confirmation) later) g.id))
            (list_active_grants-of s.now s isolated more.1)
            (All-implied grants (λ g p. IsEnded-publish _ (event confirmation) later g.id p)
              (end_grants-IsEnded reason grants isolated)),
      )

  -- A lockdown that is confirmed by the word LOCKDOWN, its reason being at least 20 characters long without
  -- the spaces around it, succeeds: every node that is listed has a quarantine command pending
  -- afterwards, and of every grant that was active the row is terminated.
  pub lockdown-Locked :
      (confirmation : String)
      → (confirmation == "LOCKDOWN") ≡ true
      → ltb (trimmed_length reason) 20 ≡ false
      → Locked (lockdown iso reason actor confirmation s)
  unfolding lockdown
  lockdown-Locked confirmation c r =
      subst Locked (confirmed confirmation c r) (emergency_lockdown-Locked confirmation)
    where
      confirmed :
          (confirmation : String)
          → (confirmation == "LOCKDOWN") ≡ true
          → ltb (trimmed_length reason) 20 ≡ false
          → emergency_lockdown iso reason actor confirmation s
            ≡ lockdown iso reason actor confirmation s
      confirmed confirmation c r = rw (lockdown, c, r) refl
