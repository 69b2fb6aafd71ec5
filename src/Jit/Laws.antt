-- ===== src/Jit/Laws.antt =====
-- What the operations on grants leave behind (src/application/jit.ts).
use bapc_vpn_and_digital_sec.Base.{
  ℕ, ◌+◌, ◌*◌, ◌≤◌, ◌<◌, String, ◌≡◌, refl, sym, true, false, none, some, arith, ltb, number_eq,
  string_eq, eq_of_==, find_where_sound, trimmed_length, find-upsert_new, find-upsert_old,
}
use bapc_vpn_and_digital_sec.Domain.{JitGrant}
use bapc_vpn_and_digital_sec.Store.{Store}
use bapc_vpn_and_digital_sec.Store.Monad.{ok}
use bapc_vpn_and_digital_sec.Store.Repositories.{get_grant, save_grant}
use bapc_vpn_and_digital_sec.Store.Commands.{publish}
use bapc_vpn_and_digital_sec.Jit.{new_grant, request, terminate}

get_grant-save_old :
    (g old : JitGrant) (s : Store)
    → get_grant g.id s ≡ some old
    → get_grant g.id (save_grant g s)
      ≡ some (record old {
        approved_by = g.approved_by;
        terminated = g.terminated;
        termination_reason = g.termination_reason;
      })
unfolding get_grant save_grant
get_grant-save_old g old s e = find-upsert_old (λ x. x.id) g.id _ g s.grants old refl e

get_grant-save_new :
    (g : JitGrant) (s : Store) → get_grant g.id s ≡ none → get_grant g.id (save_grant g s) ≡ some g
unfolding get_grant save_grant
get_grant-save_new g s e = find-upsert_new (λ x. x.id) g.id _ g s.grants refl e

get_grant-id : (id : String) (s : Store) (g : JitGrant) → get_grant id s ≡ some g → g.id ≡ id
unfolding get_grant
get_grant-id id s g e = eq_of_== g.id id (find_where_sound _ s.grants g e)

get_grant-publish :
    (id topic : String) (j : _) (s : Store) → get_grant id (publish topic j s) ≡ get_grant id s
unfolding get_grant publish
get_grant-publish id topic j s = refl

terminate_own :
    (reason : String) (s : Store) (g : JitGrant)
    → get_grant g.id s ≡ some g
    → ((terminate g.id reason s).0
        ≡ ok (record g { terminated = true; termination_reason = some reason }))
      × (get_grant g.id (terminate g.id reason s).1
          ≡ some (record g { terminated = true; termination_reason = some reason }))
unfolding terminate publish save_grant get_grant
terminate_own reason s g e = rw e (
  refl,
  get_grant-save_old (record g { terminated = true; termination_reason = some reason }) g s e,
)

long_enough : (n : ℕ) → 12 ≤ n → ltb n 12 ≡ false
long_enough n h = ground arith

too_short : (n : ℕ) → n < 12 → ltb n 12 ≡ true
too_short n h = ground arith

-- Terminating a grant that exists succeeds and its row is terminated from then on, with the reason given;
-- who it is for, what it opens and when it expires do not change.
pub terminate-get_grant :
    (id reason : String) (s : Store) (g : JitGrant)
    → get_grant id s ≡ some g
    → ((terminate id reason s).0
        ≡ ok (record g { terminated = true; termination_reason = some reason }))
      × (get_grant id (terminate id reason s).1
          ≡ some (record g { terminated = true; termination_reason = some reason }))
unfolding terminate
terminate-get_grant id reason s g e =
    let q = get_grant-id id s g e in rw⁻¹ q (terminate_own reason s g (rw (sym q) at e))

-- A request with a justification of twelve characters or more succeeds with a grant that nobody approved and
-- that expires the asked number of minutes later, whatever the number; that grant is the row of its
-- identifier, which must be new. With a shorter justification it fails and changes nothing.
pub request_lem :
    (user_id resource zone justification : String) (n : ℕ) (s : Store)
    → get_grant (s.uuid s.issued) s ≡ none
    → (12 ≤ trimmed_length justification
        → (g : JitGrant) × ((request user_id resource zone n justification s).0 ≡ ok g)
          × (get_grant g.id (request user_id resource zone n justification s).1 ≡ some g)
          × (g.approved_by ≡ none)
          × (g.expires_at ≡ s.now + n * 60000))
      × (trimmed_length justification < 12
          → ((request user_id resource zone n justification s).1 ≡ s)
            × ((g : JitGrant) → (request user_id resource zone n justification s).0 ≡ ok g → ⊥))
unfolding request new_grant publish save_grant get_grant
request_lem user_id resource zone justification n s e = (
  λ l. rw (long_enough (trimmed_length justification) l) (
    new_grant user_id resource zone n justification s,
    refl,
    get_grant-save_new (new_grant user_id resource zone n justification s) s e,
    refl,
    refl,
  ),
  λ l. rw (too_short (trimmed_length justification) l) (refl, λ g h. cc),
)
