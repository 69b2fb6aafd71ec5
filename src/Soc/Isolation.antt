-- ===== src/Soc/Isolation.antt =====
-- The loop of a lockdown over the nodes (apps/security-soc/pg-soc-actions.ts).
use bapc_vpn_and_digital_sec.Base.{
  String, ◌≡◌, refl, sym, ◌∙◌, inl, inr, Bool, true, some, List, [], ◌∷◌, ◌++◌, arith, ◌==◌,
  number_eq, string_eq, ==_refl, Option-cases, any, filter, found_of_member, All, All-of_members,
  All-implied, Memᴰ-of_filter, Memᴰ-of_sort,
}
use mathlib.Core.Path.{subst}
use bapc_vpn_and_digital_sec.Domain.{MeshNode}
use bapc_vpn_and_digital_sec.Store.{Store}
use bapc_vpn_and_digital_sec.Store.Monad.{Result, ok}
use bapc_vpn_and_digital_sec.Store.Repositories.{get_node, list_nodes}
use bapc_vpn_and_digital_sec.Store.Commands.{enqueue_for, enqueue, has_pending}
use bapc_vpn_and_digital_sec.Enforcer.{isolate_node, if_enrolled}
use bapc_vpn_and_digital_sec.Enforcer.Laws.{isolate_node_lem}
use bapc_vpn_and_digital_sec.Soc.{is_active, isolate_all}

any-append_left :
    {A : Type 0} (p : A → Bool) (xs ys : List A) → any p xs ≡ true → any p (xs ++ ys) ≡ true
any-append_left p [] ys h = cc
any-append_left p (x ∷ xs) ys h = ground (arith, any-append_left p xs ys)

-- Between the stores only commands were added.
abbrev pub Extends : Store → Store → Type 0
Extends s t =
    (t.nodes ≡ s.nodes)
    × (t.grants ≡ s.grants)
    × (t.now ≡ s.now)
    × ((id : String) → has_pending id "QUARANTINE" s ≡ true → has_pending id "QUARANTINE" t ≡ true)

Extends-trans : (s t u : Store) → Extends s t → Extends t u → Extends s u
Extends-trans s t u h k = (k.0 ∙ h.0, k.1 ∙ h.1, k.2 ∙ h.2, λ id p. k.3 id (h.3 id p))

isolate_node-Extends : (id : String) (s : Store) → Extends s (isolate_node id s).1
unfolding isolate_node enqueue enqueue_for has_pending
isolate_node-Extends id s = elim (Option-cases (get_node id s)) [
  | inl e ↦ rw (isolate_node, if_enrolled, e) (refl, refl, refl, λ j h. h)
  | inr (n, e) ↦
      rw (isolate_node, if_enrolled, e)
        (rw (enqueue_for, e) (refl, refl, refl, λ j h. any-append_left _ s.commands _ h))
]

get_node-Extends : (id : String) (s t : Store) → Extends s t → get_node id t ≡ get_node id s
unfolding get_node
get_node-Extends id s t h = rw h.0 refl

abbrev pub IsEnrolled : Store → MeshNode → Type 0
IsEnrolled s n = (m : MeshNode) × (get_node n.id s ≡ some m)

-- the outcome of isolating the nodes one after another
abbrev pub Isolates : List MeshNode → Store → Result (Unit {0}) × Store → Type 0
Isolates nodes s r =
    (r.0 ≡ ok tt) × Extends s r.1 × All (λ n. has_pending n.id "QUARANTINE" r.1 ≡ true) nodes

isolate_all-cons :
    (n : MeshNode) (nodes : List MeshNode) (s : Store)
    → (isolate_node n.id s).0 ≡ ok tt
    → isolate_all (n ∷ nodes) s ≡ isolate_all nodes (isolate_node n.id s).1
unfolding isolate_all
isolate_all-cons n nodes s e = ground (arith, e)

pub isolate_all_lem :
    (nodes : List MeshNode) (s : Store)
    → All (IsEnrolled s) nodes
    → Isolates nodes s (isolate_all nodes s)
unfolding isolate_all
isolate_all_lem [] s h = (refl, (refl, refl, refl, λ j p. p), tt)
isolate_all_lem (n ∷ nodes) s h =
    let (m, e) = h.0 in
    let (total, found, _) = isolate_node_lem n.id s in
    let step = isolate_node-Extends n.id s in
    let (rest, more, pending) =
      isolate_all_lem nodes (isolate_node n.id s).1
        (All-implied nodes (λ k d. (d.0, get_node-Extends k.id s _ step ∙ d.1)) h.1) in
    subst (Isolates (n ∷ nodes) s) (sym (isolate_all-cons n nodes s total))
      (rest, Extends-trans s _ _ step more, (more.3 n.id (found m e), pending))

pub list_nodes-IsEnrolled : (s : Store) → All (IsEnrolled s) (filter is_active (list_nodes s))
unfolding list_nodes get_node
list_nodes-IsEnrolled s = All-of_members _ _ (λ n m.
    let (m', _) = Memᴰ-of_filter is_active n _ m in
    let (m'', _) = Memᴰ-of_filter (λ k. k.active) n s.nodes (Memᴰ-of_sort _ n _ m') in
    elim (Option-cases (get_node n.id s)) [
      | inl e ↦ elim (found_of_member (λ k. k.id == n.id) s.nodes n m'' (==_refl n.id) e) [ ]
      | inr (x, e) ↦ (x, e)
    ])
