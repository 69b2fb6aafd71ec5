-- ===== src/Store/Commands/Laws.antt =====
-- The queue of commands (services/mesh-controller/pg-command-queue.ts).
use bapc_vpn_and_digital_sec.Base.{
  ℕ, zero, suc, String, ◌≡◌, refl, inl, inr, Bool, true, false, none, some, List, [], ◌∷◌, ◌++◌,
  arith, ◌==◌, number_eq, string_eq, ==_refl, Bool-cases, Option-cases, any, find_where, take,
  update_where, All, All-filter_of, All-implied, All-sort,
}
use bapc_vpn_and_digital_sec.Json.{Json}
use bapc_vpn_and_digital_sec.Domain.{MeshNode}
use bapc_vpn_and_digital_sec.Store.{Store, Command}
use bapc_vpn_and_digital_sec.Store.Monad.{ok}
use bapc_vpn_and_digital_sec.Store.Repositories.{get_node}
use bapc_vpn_and_digital_sec.Store.Commands.{
  enqueue_for, enqueue, has_pending, is_deliverable, pending_commands, acknowledge,
}

All-take : {A : Type 0} (P : A → Type 0) (n : ℕ) (xs : List A) → All P xs → All P (take n xs)
All-take P zero xs h = tt
All-take P (suc n) [] h = tt
All-take P (suc n) (x ∷ xs) h = (h.0, All-take P n xs h.1)

any-append :
    {A : Type 0} (p : A → Bool) (xs : List A) (x : A) → p x ≡ true → any p (xs ++ x ∷ []) ≡ true
any-append p [] x h = ground arith
any-append p (y ∷ xs) x h = ground (arith, any-append p xs x h)

deliverable_others :
    (id node_id : String) (now at : ℕ) (result : Json) (rows : List Command)
    → All
        (λ c. is_deliverable node_id now c ≡ true → (c.id == id) ≡ false)
        (update_where
          (λ c. c.id == id)
          (λ c. record c { acknowledged_at = some at; result = some result })
          rows)
deliverable_others id node_id now at result [] = tt
deliverable_others id node_id now at result (c ∷ rows) = (
  elim (Bool-cases (c.id == id)) [ inl e ↦ rw e (λ d. ground arith) | inr e ↦ rw e (λ d. e) ],
  deliverable_others id node_id now at result rows,
)

find_none :
    {A : Type 0} (p : A → Bool) (xs : List A) → find_where p xs ≡ none → All (λ x. p x ≡ false) xs
find_none p [] h = tt
find_none p (x ∷ xs) h = (ground arith, find_none p xs (ground arith))

-- A command that was acknowledged is delivered to no node any more.
pub acknowledge-pending_commands :
    (id node_id : String) (result : Json) (limit : ℕ) (s : Store)
    → All (λ c. (c.id == id) ≡ false) (pending_commands node_id limit (acknowledge id result s))
unfolding pending_commands acknowledge
acknowledge-pending_commands id node_id result limit s =
    elim (Option-cases (find_where (λ c. c.id == id) s.commands)) [
      | inl e ↦
          rw (e, acknowledge)
            (All-take _ limit _ (
              All-sort _ _ _ (
                All-filter_of _ _ s.commands
                  (All-implied s.commands (λ c h _. h) (find_none _ s.commands e)))))
      | inr (r, e) ↦
          rw (e, acknowledge)
            (All-take _ limit _ (
              All-sort _ _ _ (
                All-filter_of _ _ _ (deliverable_others id node_id s.now s.now result s.commands))))
    ]

-- A command queued for an enrolled node is pending at once.
pub enqueue-has_pending :
    (node_id type : String) (payload : Json) (priority : ℕ) (s : Store) (n : MeshNode)
    → get_node node_id s ≡ some n
    → has_pending node_id type (enqueue node_id type payload priority s).1 ≡ true
unfolding has_pending enqueue enqueue_for
enqueue-has_pending node_id type payload priority s n e =
    rw (e, enqueue_for) (any-append _ s.commands _ (ground (arith, ==_refl node_id, ==_refl type)))

-- The queue takes the command of an enrolled node, and no other table changes with it.
pub enqueue-ok :
    (node_id type : String) (payload : Json) (priority : ℕ) (s : Store) (n : MeshNode)
    → get_node node_id s ≡ some n
    → ((enqueue node_id type payload priority s).0 ≡ ok tt)
      × ((enqueue node_id type payload priority s).1.devices ≡ s.devices)
unfolding enqueue enqueue_for
enqueue-ok node_id type payload priority s n e = rw (enqueue_for, e) (refl, refl)
