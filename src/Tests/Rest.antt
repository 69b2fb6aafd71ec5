-- ===== src/Tests/Rest.antt =====
-- The guards of the REST surface at concrete inputs.
use bapc_vpn_and_digital_sec.Base.{
  ℕ, ◌+◌, ◌≤◌, ◌≡◌, refl, some, [], ◌∷◌, arith, number_eq, string_eq,
}
use bapc_vpn_and_digital_sec.Json.{obj, end}
use bapc_vpn_and_digital_sec.Rest.RateLimit.{RateLimitRule}
use bapc_vpn_and_digital_sec.Rest.RateLimit.Laws.{count, run, run_bounded}
use bapc_vpn_and_digital_sec.Rest.Replay.{
  Answer, done, fails, claim_table, enforce, replay_detected,
}
use bapc_vpn_and_digital_sec.Rest.Replay.Laws.{enforce_twice_table}
use bapc_vpn_and_digital_sec.Rest.Idempotency.{
  StoredResponse, IdempotencyRow, get_row, with_idempotency, key_conflict,
}
use bapc_vpn_and_digital_sec.Rest.Idempotency.Laws.{
  with_idempotency_again, with_idempotency_expired,
}

abbrev two_a_minute : RateLimitRule
two_a_minute = record { limit = 2; window_ms = 60000 }

run_bounded_example : count two_a_minute 30 (run "k" two_a_minute (10 ∷ 20 ∷ 30 ∷ []) []) ≤ 2
run_bounded_example =
    run_bounded "k" two_a_minute (10 ∷ 20 ∷ 30 ∷ []) (omega arith)
      (omega arith, (omega arith, (omega arith, tt)))

enforce_twice_table_example :
    (enforce claim_table 9000 (some "abc") 1000 (enforce claim_table 100 (some "abc") 1000 []).1).0
    ≡ fails replay_detected
unfolding enforce claim_table
enforce_twice_table_example = enforce_twice_table 100 9000 1000 1000 "abc" [] refl

abbrev created : StoredResponse
created = record { status = 201; body = obj end }

-- a handler that counts its runs
abbrev counting : ℕ → Answer StoredResponse × ℕ
counting n = (done created, n + 1)

with_idempotency_again_example :
    with_idempotency counting 500 60000
      (some "k")
      "u2"
      "h2"
      (with_idempotency counting 100 60000 (some "k") "u1" "h1" [] 0).1
      7
    ≡ (fails key_conflict, (with_idempotency counting 100 60000 (some "k") "u1" "h1" [] 0).1, 7)
with_idempotency_again_example =
    with_idempotency_again counting counting 100 500 60000 60000 "k" "u1" "u2" "h1" "h2" [] 0 1 7
      created refl refl refl (omega arith)

abbrev expired_row : IdempotencyRow
expired_row = record {
  key = "k";
  actor = "u1";
  request_hash = "h1";
  response = created;
  expires_at = 50;
}

with_idempotency_expired_example :
    with_idempotency counting 100 60000 (some "k") "u1" "h1" (expired_row ∷ []) 0
    ≡ (done created, expired_row ∷ [], 1)
unfolding get_row
with_idempotency_expired_example =
    with_idempotency_expired counting 100 60000 "k" "u1" "h1" (expired_row ∷ []) 0 1 created refl
      refl refl refl
