-- ===== src/Rest/Replay/Laws.antt =====
-- A nonce is good for one request (src/api/rest/replay-guard.ts).
use bapc_vpn_and_digital_sec.Base.{
  ℕ, ◌+◌, ◌<◌, String, true, [], ◌∷◌, ◌++◌, some, ◌≡◌, string_eq, arith, ==_refl,
}
use bapc_vpn_and_digital_sec.Rest.Replay.{
  done, fails, Nonces, expiry_of, set_expiry, claim_memory, has_row, claim_table, replay_detected,
  enforce,
}

expiry_of-set_expiry :
    (nonce : String) (t : ℕ) (m : Nonces) → expiry_of nonce (set_expiry nonce t m) ≡ some t
unfolding expiry_of set_expiry
expiry_of-set_expiry nonce t [] = rw (==_refl nonce)
expiry_of-set_expiry nonce t ((k, u) ∷ m) = ground (arith, expiry_of-set_expiry nonce t m)

-- With the store in memory, a nonce that was accepted is refused as a replay until its time to live has
-- passed.
pub enforce_twice_memory :
    (now later ttl ttl' : ℕ) (nonce : String) (seen : Nonces)
    → (enforce claim_memory now (some nonce) ttl seen).0 ≡ done tt
    → later < now + ttl
    → (enforce claim_memory later
        (some nonce)
        ttl'
        (enforce claim_memory now (some nonce) ttl seen).1).0
      ≡ fails replay_detected
unfolding enforce claim_memory
enforce_twice_memory now later ttl ttl' nonce seen e h =
    ground (arith, expiry_of-set_expiry nonce (now + ttl) seen)

has_row-append :
    (nonce : String) (t : ℕ) (rows : Nonces) → has_row nonce (rows ++ (nonce, t) ∷ []) ≡ true
has_row-append nonce t [] = rw (==_refl nonce)
has_row-append nonce t (r ∷ rows) = ground (arith, has_row-append nonce t rows)

-- With the table, a nonce that was accepted once is refused as a replay at every later time, also after
-- its time to live, as long as its row is there.
pub enforce_twice_table :
    (now later ttl ttl' : ℕ) (nonce : String) (rows : Nonces)
    → (enforce claim_table now (some nonce) ttl rows).0 ≡ done tt
    → (enforce claim_table later
        (some nonce)
        ttl'
        (enforce claim_table now (some nonce) ttl rows).1).0
      ≡ fails replay_detected
unfolding enforce claim_table
enforce_twice_table now later ttl ttl' nonce rows e =
    ground (arith, has_row-append nonce (now + ttl) rows)
