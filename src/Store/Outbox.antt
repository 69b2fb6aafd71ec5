-- ===== src/Store/Outbox.antt =====
-- src/infrastructure/postgres/outbox.ts, `OutboxDispatcher.flush`: a batch of the messages that were not
-- published yet, the oldest first. `send` answers nothing where the sink takes a message and the text of the
-- error where it throws. A row that is locked elsewhere is not modelled: the batch is the first `limit`.
use bapc_vpn_and_digital_sec.Base.{
  ℕ, ◌+◌, String, Bool, not, Option, none, some, List, [], ◌∷◌, if◌then◌else◌, number_eq, string_eq,
  is_some,
}
use bapc_vpn_and_digital_sec.Json.{Json}
use bapc_vpn_and_digital_sec.Store.{Message}

abbrev pub is_unpublished : Message → Bool
is_unpublished m = not (is_some m.published_at)

abbrev pub sent : ℕ → Message → Option String → Message
sent now m none = record m {
  published_at = some now;
  attempt_count = m.attempt_count + 1;
  last_error = none;
}
sent now m (some e) = record m { attempt_count = m.attempt_count + 1; last_error = some e }

module _ (send : String → Json → Option String) (now : ℕ) where
  -- the loop of `flush`: the number of rows that were tried and the table after it
  unfoldable pub flush : ℕ → List Message → ℕ × List Message
  flush limit [] = (0, [])
  flush ℕ.zero (m ∷ rows) = (0, m ∷ rows)
  flush (ℕ.suc k) (m ∷ rows) =
      let skipped = flush (ℕ.suc k) rows in
      let tried = flush k rows in
      if is_unpublished m
      then (tried.0 + 1, sent now m (send m.topic m.payload) ∷ tried.1)
      else (skipped.0, m ∷ skipped.1)
