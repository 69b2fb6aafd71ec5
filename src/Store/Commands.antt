-- ===== src/Store/Commands.antt =====
-- services/mesh-controller/pg-command-queue.ts: the durable queue of commands for the nodes, and
-- src/infrastructure/postgres/outbox.ts: the outbox that every event is published to. A command for a
-- node that has no row in mesh_nodes breaks the foreign key of controller_commands.
pub mod Laws
pub mod Delivery
pub mod Latest
use bapc_vpn_and_digital_sec.Base.{
  ℕ, ◌+◌, ◌*◌, String, Bool, true, false, not, ◌&&◌, ◌||◌, List, [], ◌∷◌, ◌++◌, Option, none, some,
  ◌==◌, string_eq, ltb, leb, any, filter, find_where, update_where, take, sort, is_some,
}
use bapc_vpn_and_digital_sec.Json.{Json, null, bool, obj, end, get_field}
use bapc_vpn_and_digital_sec.Domain.{Error, database}
use bapc_vpn_and_digital_sec.Store.{Store, Command, Acknowledgement, Message}
use bapc_vpn_and_digital_sec.Store.Monad.{M, Result, ok, err, throw, ◌>>=◌, ◌>>◌, modify, fresh_id}
use bapc_vpn_and_digital_sec.Store.Repositories.{get_node}

-- `TransactionalOutbox.publish`: the key of a row is a fresh identifier, so no row is in the way.
unfoldable pub publish : String → Json → Store → Store
publish topic event s = record s {
  outbox =
      s.outbox
      ++ record {
        topic = topic;
        payload = event;
        published_at = none;
        attempt_count = 0;
        last_error = none;
      }
        ∷ [];
}

-- `enqueue` with a lifetime of `ttl` minutes
unfoldable pub enqueue_for : String → String → Json → ℕ → ℕ → M (Unit {0})
enqueue_for node_id type payload priority ttl s = elim (get_node node_id s) [
  | none ↦ (err (database "23503"), s)
  | some _ ↦ (
    ok tt,
    record s {
      issued = s.issued + 1;
      commands =
          s.commands
          ++ record {
            id = s.uuid s.issued;
            node_id = node_id;
            type = type;
            payload = payload;
            priority = priority;
            issued_at = s.now;
            not_before = s.now;
            expires_at = s.now + ttl * 60000;
            acknowledged_at = none;
            result = none;
          }
            ∷ [];
    },
  )
]

-- `enqueue` at its default lifetime of an hour
unfoldable pub enqueue : String → String → Json → ℕ → M (Unit {0})
unfolding enqueue_for
enqueue node_id type payload priority = enqueue_for node_id type payload priority 60

abbrev pub is_outstanding : String → String → ℕ → Command → Bool
is_outstanding node_id type now c =
    c.node_id == node_id
    && c.type == type
    && not (is_some c.acknowledged_at)
    && ltb now c.expires_at

unfoldable pub has_pending : String → String → Store → Bool
has_pending node_id type s = any (is_outstanding node_id type s.now) s.commands

abbrev pub is_deliverable : String → ℕ → Command → Bool
is_deliverable node_id now c =
    c.node_id == node_id
    && not (is_some c.acknowledged_at)
    && leb c.not_before now
    && ltb now c.expires_at

abbrev pub command_before : Command → Command → Bool
command_before a b =
    ltb b.priority a.priority || (leb b.priority a.priority && ltb a.issued_at b.issued_at)

-- `pending`: the deliverable commands, the highest priority first and then the oldest
unfoldable pub pending_commands : String → ℕ → Store → List Command
pending_commands node_id limit s =
    take limit (sort command_before (filter (is_deliverable node_id s.now) s.commands))

-- `typeof ok==="boolean"?(ok?"SUCCEEDED":"FAILED"):"ACKNOWLEDGED"`
unfoldable pub ack_status : Json → String
ack_status result = elim (get_field "ok" result) [
  | some (bool true) ↦ "SUCCEEDED"
  | some (bool false) ↦ "FAILED"
  | _ ↦ "ACKNOWLEDGED"
]

-- `acknowledge`, for a command that the node has not acknowledged before: a second row of the same command and
-- node breaks the primary key of command_acknowledgements, which is left out
unfoldable pub acknowledge : String → Json → Store → Store
unfolding ack_status
acknowledge command_id result s = elim (find_where (λ c. c.id == command_id) s.commands) [
  | none ↦ s
  | some row ↦ record s {
    commands =
        update_where (λ c. c.id == command_id)
          (λ c. record c { acknowledged_at = some s.now; result = some result }) s.commands;
    acks =
        s.acks
        ++ record {
          command_id = command_id;
          node_id = row.node_id;
          command_type = row.type;
          issued_at = row.issued_at;
          acknowledged_at = s.now;
          status = ack_status result;
          details = result;
        }
          ∷ [];
  }
]

-- `latestAcknowledgement`: the most recent successful one
unfoldable pub latest_acknowledgement : String → String → Store → Option Acknowledgement
latest_acknowledgement node_id type s =
    elim (sort (λ a b. ltb b.acknowledged_at a.acknowledged_at)
      (filter (λ a. a.node_id == node_id && a.command_type == type && a.status == "SUCCEEDED")
        s.acks)) [ [] ↦ none | a ∷ _ ↦ some a ]
