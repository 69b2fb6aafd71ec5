-- ===== src/Rest/Idempotency/Laws.antt =====
-- What an idempotency key guarantees (src/api/rest/idempotency.ts).
use bapc_vpn_and_digital_sec.Base.{
  ℕ, ◌+◌, ◌<◌, String, Bool, true, false, List, [], ◌∷◌, ◌++◌, none, some, ◌≡◌, refl, ◌==◌,
  string_eq, arith, any, is_empty, ==_refl, if◌then◌else◌, find_where, Bool-cases, inl, inr,
}
use bapc_vpn_and_digital_sec.Rest.Replay.{Answer, done, fails}
use bapc_vpn_and_digital_sec.Rest.Idempotency.{
  StoredResponse, IdempotencyRow, is_current, get_row, put_row, key_conflict, with_key,
  with_idempotency,
}

find-append :
    (p : IdempotencyRow → Bool) (r : IdempotencyRow) (rows : List IdempotencyRow)
    → find_where p rows ≡ none
    → p r ≡ true
    → find_where p (rows ++ r ∷ []) ≡ some r
find-append p r [] n h = rw h
find-append p r (x ∷ rows) n h = ground (arith, find-append p r rows)

abbrev pub has_key : String → List IdempotencyRow → Bool
has_key key = any (λ x. x.key == key)

new_has_none :
    (now : ℕ) (key : String) (rows : List IdempotencyRow)
    → has_key key rows ≡ false
    → find_where (is_current now key) rows ≡ none
new_has_none now key [] h = refl
new_has_none now key (r ∷ rows) h = ground (arith, new_has_none now key rows)

abbrev pub stored : String → String → String → ℕ → StoredResponse → IdempotencyRow
stored key actor hash expires_at r = record {
  key = key;
  actor = actor;
  request_hash = hash;
  response = r;
  expires_at = expires_at;
}

module _ {S : Type 0} (compute : S → Answer StoredResponse × S) (now ttl : ℕ) where
  first_run :
      (key actor hash : String) (rows : List IdempotencyRow) (s t : S) (r : StoredResponse)
      → is_empty key ≡ false
      → has_key key rows ≡ false
      → compute s ≡ (done r, t)
      → with_idempotency compute now ttl (some key) actor hash rows s
        ≡ (done r, rows ++ stored key actor hash (now + ttl) r ∷ [], t)
  unfolding with_idempotency get_row put_row
  first_run key actor hash rows s t r k n c =
      rw k (rw (new_has_none now key rows n, with_key) (rw c (rw n)))

  replayed :
      (key actor hash : String) (rows : List IdempotencyRow) (s : S) (row : IdempotencyRow)
      → is_empty key ≡ false
      → get_row now key rows ≡ some row
      → with_idempotency compute now ttl (some key) actor hash rows s
        ≡ (if row.request_hash == hash then done row.response else fails key_conflict, rows, s)
  unfolding with_idempotency
  replayed key actor hash rows s row k g = elim (Bool-cases (row.request_hash == hash)) [
    | inl e ↦ rw k (rw (g, with_key) (rw e))
    | inr e ↦ rw k (rw (g, with_key) (rw e))
  ]

  -- A row whose time to live has passed blocks its key: where the key has a row but no current one, a
  -- request runs its handler and its answer is not stored, so the next request runs the handler again.
  pub with_idempotency_expired :
      (key actor hash : String) (rows : List IdempotencyRow) (s t : S) (r : StoredResponse)
      → is_empty key ≡ false
      → has_key key rows ≡ true
      → get_row now key rows ≡ none
      → compute s ≡ (done r, t)
      → with_idempotency compute now ttl (some key) actor hash rows s ≡ (done r, rows, t)
  unfolding with_idempotency put_row
  with_idempotency_expired key actor hash rows s t r k n g c = rw k (rw (g, with_key) (rw c (rw n)))

-- A request under a new key whose handler answers stores the answer: until the time to live has passed,
-- a request under that key with the same body hash gets that answer while its handler does not run, and
-- one with another hash is refused as a conflict; the rows stay as they are. The actor of either request
-- makes no difference.
pub with_idempotency_again :
    {S : Type 0} (compute compute' : S → Answer StoredResponse × S) (now later ttl ttl' : ℕ)
    (key actor actor' hash hash' : String) (rows : List IdempotencyRow) (s t u : S)
    (r : StoredResponse)
    → is_empty key ≡ false
    → has_key key rows ≡ false
    → compute s ≡ (done r, t)
    → later < now + ttl
    → with_idempotency compute' later ttl'
        (some key)
        actor'
        hash'
        (with_idempotency compute now ttl (some key) actor hash rows s).1
        u
      ≡ (
        if hash == hash' then done r else fails key_conflict,
        (with_idempotency compute now ttl (some key) actor hash rows s).1,
        u,
      )
unfolding get_row
with_idempotency_again compute compute' now later ttl ttl' key actor actor' hash hash' rows s t u r
      k n c h =
    let row = stored key actor hash (now + ttl) r in
    let found =
      find-append (is_current later key) row rows (new_has_none later key rows n)
        (ground (arith, ==_refl key)) in
    rw (first_run compute now ttl key actor hash rows s t r k n c)
      (replayed compute' later ttl' key actor' hash' (rows ++ row ∷ []) u row k found)
