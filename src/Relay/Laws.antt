-- ===== src/Relay/Laws.antt =====
-- What the blind relay forwards (services/relay/relay-server.ts).
use bapc_vpn_and_digital_sec.Base.{
  ℕ, ◌+◌, String, ◌≡◌, refl, false, none, some, [], ◌∷◌, arith, ◌==◌, number_eq, string_eq, ==_refl,
  eq_of_==,
}
use bapc_vpn_and_digital_sec.Relay.{
  RelaySession, Table, look_up, assign, remove_key, RelayServer, key_for, register, unregister,
  same_endpoint, forward,
}

look_up-assign :
    (key : String) (v : RelaySession) (m : Table) → look_up key (assign key v m) ≡ some v
unfolding look_up assign
look_up-assign key v [] = ground (arith, ==_refl key)
look_up-assign key v ((k, u) ∷ m) = ground (arith, look_up-assign key v m)

look_up-assign_other :
    (key j : String) (v : RelaySession) (m : Table)
    → (key == j) ≡ false
    → look_up j (assign key v m) ≡ look_up j m
unfolding look_up assign
look_up-assign_other key j v [] h = ground arith
look_up-assign_other key j v ((k, u) ∷ m) h =
    ground (arith, look_up-assign_other key j v m h, eq_of_== k key)

look_up-remove_key : (key : String) (m : Table) → look_up key (remove_key key m) ≡ none
unfolding look_up remove_key
look_up-remove_key key [] = refl
look_up-remove_key key ((k, u) ∷ m) = ground (arith, look_up-remove_key key m)

look_up-remove_none :
    (key j : String) (m : Table) → look_up key m ≡ none → look_up key (remove_key j m) ≡ none
unfolding look_up remove_key
look_up-remove_none key j [] h = refl
look_up-remove_none key j ((k, u) ∷ m) h = ground (arith, look_up-remove_none key j m)

-- Once a session is registered, a datagram from either of its two endpoints goes to the other one and
-- its size is counted, whatever sessions stood in the table before. The two endpoints must differ in
-- their key and in their address.
pub register-forward :
    (x : RelaySession) (size : ℕ) (r : RelayServer)
    → (key_for x.b == key_for x.a) ≡ false
    → same_endpoint x.b x.a ≡ false
    → (forward x.a size (register x r)
        ≡ (some x.b, record (register x r) { bytes_relayed = r.bytes_relayed + size }))
      × (forward x.b size (register x r)
          ≡ (some x.a, record (register x r) { bytes_relayed = r.bytes_relayed + size }))
unfolding forward register
register-forward x size r h d =
    rw
      (
        forward,
        register,
        look_up-assign_other (key_for x.b) (key_for x.a) x (assign (key_for x.a) x r.by_endpoint) h,
        look_up-assign (key_for x.a) x r.by_endpoint,
        look_up-assign (key_for x.b) x (assign (key_for x.a) x r.by_endpoint),
        d,
        ==_refl x.a.host,
        ==_refl x.a.port,
      )
      (refl, refl)

-- After a session is unregistered nothing that comes from its two endpoints is forwarded, also where a
-- newer session had been registered at one of them in the meantime.
pub unregister-forward :
    (id : String) (x : RelaySession) (size : ℕ) (r : RelayServer)
    → look_up id r.sessions ≡ some x
    → ((forward x.a size (unregister id r)).0 ≡ none)
      × ((forward x.b size (unregister id r)).0 ≡ none)
unfolding forward unregister
unregister-forward id x size r e =
    rw (forward, unregister, e)
      (rw
        (
          look_up-remove_none (key_for x.a) (key_for x.b) (remove_key (key_for x.a) r.by_endpoint)
              (look_up-remove_key (key_for x.a) r.by_endpoint),
          look_up-remove_key (key_for x.b) (remove_key (key_for x.a) r.by_endpoint),
        )
        (refl, refl))
