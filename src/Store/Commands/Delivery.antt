-- ===== src/Store/Commands/Delivery.antt =====
-- How the queue of commands empties (services/mesh-controller/pg-command-queue.ts): acknowledgements leave
-- no more commands waiting, and fewer where the command was waiting.
use bapc_vpn_and_digital_sec.Base.{
  ℕ, zero, suc, ◌≤◌, ◌<◌, String, ◌≡◌, refl, inl, inr, true, some, List, [], ◌∷◌, Memᴰ, arith, ◌==◌,
  number_eq, string_eq, ==_refl, Bool-cases, Option-cases, length, filter, find_where,
  found_of_member, take, update_where, Memᴰ-of_filter, insert_sorted, sort, Memᴰ-of_sort,
}
use bapc_vpn_and_digital_sec.Json.{Json}
use bapc_vpn_and_digital_sec.Store.{Store, Command}
use bapc_vpn_and_digital_sec.Store.Commands.{
  is_deliverable, command_before, pending_commands, acknowledge,
}

-- the commands that the node can be given now
abbrev pub waiting : String → Store → List Command
waiting node_id s = filter (is_deliverable node_id s.now) s.commands

abbrev closed : ℕ → Json → Command → Command
closed now result c = record c { acknowledged_at = some now; result = some result }

module _ (node_id id : String) (now at : ℕ) (result : Json) where
  abbrev closed_rows : List Command → List Command
  closed_rows = update_where (λ c. c.id == id) (closed at result)

  closed_le :
      (rows : List Command)
      → length (filter (is_deliverable node_id now) (closed_rows rows))
        ≤ length (filter (is_deliverable node_id now) rows)
  closed_le [] = omega arith
  closed_le (c ∷ rows) = ground (arith, closed_le rows)

  closed_lt :
      (c : Command) (rows : List Command)
      → Memᴰ c rows
      → (c.id == id) ≡ true
      → is_deliverable node_id now c ≡ true
      → length (filter (is_deliverable node_id now) (closed_rows rows))
        < length (filter (is_deliverable node_id now) rows)
  closed_lt c [] m h d = elim m [ ]
  closed_lt c (x ∷ rows) (Memᴰ.head q) h d = ground (arith, closed_le rows)
  closed_lt c (x ∷ rows) (Memᴰ.tail m) h d = ground (arith, closed_le rows, closed_lt c rows m h d)

acknowledge_now : (id : String) (result : Json) (s : Store) → (acknowledge id result s).now ≡ s.now
unfolding acknowledge
acknowledge_now id result s = elim (Option-cases (find_where (λ c. c.id == id) s.commands)) [
  | inl e ↦ rw (e, acknowledge) refl
  | inr (row, e) ↦ rw (e, acknowledge) refl
]

pub acknowledge_le :
    (node_id id : String) (result : Json) (s : Store)
    → length (waiting node_id (acknowledge id result s)) ≤ length (waiting node_id s)
unfolding acknowledge
acknowledge_le node_id id result s = elim (Option-cases (find_where (λ c. c.id == id) s.commands)) [
  | inl e ↦ rw (e, acknowledge) (omega arith)
  | inr (row, e) ↦ rw (e, acknowledge) (closed_le node_id id s.now s.now result s.commands)
]

pub acknowledge_lt :
    (node_id : String) (result : Json) (s : Store) (c : Command)
    → Memᴰ c s.commands
    → is_deliverable node_id s.now c ≡ true
    → length (waiting node_id (acknowledge c.id result s)) < length (waiting node_id s)
unfolding acknowledge
acknowledge_lt node_id result s c m d =
    elim (Option-cases (find_where (λ x. x.id == c.id) s.commands)) [
      | inl e ↦ elim (found_of_member (λ x. x.id == c.id) s.commands c m (==_refl c.id) e) [ ]
      | inr (row, e) ↦
          rw (e, acknowledge)
            (closed_lt node_id c.id s.now s.now result c s.commands m (==_refl c.id) d)
    ]

insert_some :
    (c : Command) (cs : List Command)
    → (d : Command) × (ds : List Command) × (insert_sorted command_before c cs ≡ d ∷ ds)
insert_some c [] = (c, [], refl)
insert_some c (x ∷ cs) = elim (Bool-cases (command_before x c)) [
  | inl e ↦ (x, insert_sorted command_before c cs, rw e refl)
  | inr e ↦ (c, x ∷ cs, rw e refl)
]

pub sort_some :
    (cs : List Command)
    → 0 < length cs
    → (d : Command) × (ds : List Command) × (sort command_before cs ≡ d ∷ ds)
sort_some [] h = absurd (omega arith)
sort_some (c ∷ cs) h = insert_some c (sort command_before cs)

-- The command that is delivered first is in the queue, and can be delivered.
pub head_waiting :
    (node_id : String) (s : Store) (c : Command) (cs : List Command)
    → sort command_before (waiting node_id s) ≡ c ∷ cs
    → Memᴰ c s.commands × (is_deliverable node_id s.now c ≡ true)
head_waiting node_id s c cs e =
    let m : Memᴰ c (sort command_before (waiting node_id s)) = rw e (Memᴰ.head refl) in
    Memᴰ-of_filter (is_deliverable node_id s.now) c s.commands
      (Memᴰ-of_sort command_before c (waiting node_id s) m)

length_zero : (cs : List Command) → length cs ≡ 0 → cs ≡ []
length_zero [] h = refl
length_zero (c ∷ cs) h = absurd (omega arith)

take_none : (n : ℕ) → take {A = Command} n [] ≡ []
take_none zero = refl
take_none (suc n) = refl

pub pending_none :
    (node_id : String) (limit : ℕ) (s : Store)
    → length (waiting node_id s) ≡ 0
    → pending_commands node_id limit s ≡ []
unfolding pending_commands
pending_none node_id limit s h = rw (length_zero (waiting node_id s) h) (take_none limit)
