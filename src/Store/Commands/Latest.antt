-- ===== src/Store/Commands/Latest.antt =====
-- The latest acknowledgement of a command (services/mesh-controller/pg-command-queue.ts).
use bapc_vpn_and_digital_sec.Base.{
  ℕ, ◌<◌, String, ◌≡◌, refl, ap, ◌∙◌, Bool, true, ◌&&◌, some, List, [], ◌∷◌, ◌++◌, arith, ◌==◌,
  string_eq, ==_refl, ltb, filter, find_where, filter-append, All, sort,
}
use bapc_vpn_and_digital_sec.Json.{Json}
use bapc_vpn_and_digital_sec.Store.{Store, Command, Acknowledgement}
use bapc_vpn_and_digital_sec.Store.Commands.{ack_status, acknowledge, latest_acknowledgement}

-- A row that stands before all others is the first of the sorted list.
sort-append_first :
    {A : Type 0} (before : A → A → Bool) (xs : List A) (z : A)
    → All (λ x. before z x ≡ true) xs
    → sort before (xs ++ z ∷ []) ≡ z ∷ sort before xs
sort-append_first before [] z h = refl
sort-append_first before (x ∷ xs) z h = rw (sort-append_first before xs z h.1) (rw h.0 refl)

abbrev pub is_success_of : String → String → Acknowledgement → Bool
is_success_of node_id type a =
    a.node_id == node_id && a.command_type == type && a.status == "SUCCEEDED"

-- the row that `acknowledge` writes
abbrev written_ack : String → Command → Json → ℕ → String → Acknowledgement
written_ack id row result now status = record {
  command_id = id;
  node_id = row.node_id;
  command_type = row.type;
  issued_at = row.issued_at;
  acknowledged_at = now;
  status = status;
  details = result;
}

written_ack_success :
    (id : String) (row : Command) (result : Json) (now : ℕ) (status : String)
    → status ≡ "SUCCEEDED"
    → is_success_of row.node_id row.type (written_ack id row result now status) ≡ true
written_ack_success id row result now status e =
    rw (==_refl row.node_id) (rw (==_refl row.type) (rw e refl))

filter-later :
    (p : Acknowledgement → Bool) (now : ℕ) (acks : List Acknowledgement)
    → All (λ a. a.acknowledged_at < now) acks
    → All (λ a. ltb a.acknowledged_at now ≡ true) (filter p acks)
filter-later p now [] h = tt
filter-later p now (a ∷ acks) h = ground (arith, filter-later p now acks h.1)

-- A success that is acknowledged later than every acknowledgement so far is the latest one of its node and
-- type, with the reported result.
pub latest_acknowledgement-acknowledge :
    (id : String) (result : Json) (s : Store) (row : Command)
    → find_where (λ c. c.id == id) s.commands ≡ some row
    → ack_status result ≡ "SUCCEEDED"
    → All (λ a. a.acknowledged_at < s.now) s.acks
    → (a : Acknowledgement) × (latest_acknowledgement row.node_id row.type (acknowledge id result s)
        ≡ some a)
      × (a.details ≡ result)
unfolding latest_acknowledgement acknowledge
latest_acknowledgement-acknowledge id result s row e ok_ later =
    let p = is_success_of row.node_id row.type in
    let z = written_ack id row result s.now (ack_status result) in
    let kept : p z ≡ true = written_ack_success id row result s.now (ack_status result) ok_ in
    let same : filter p (s.acks ++ z ∷ []) ≡ filter p s.acks ++ z ∷ [] =
      filter-append p s.acks (z ∷ []) ∙ ap (λ r. filter p s.acks ++ r) (rw kept refl) in
    (
      z,
      rw (e, acknowledge)
          (rw (same, latest_acknowledgement)
            (rw
              (sort-append_first (λ a b. ltb b.acknowledged_at a.acknowledged_at) (filter p s.acks)
                z (filter-later p s.now s.acks later))
              refl)),
      refl,
    )
