-- ===== src/Rest/Idempotency/Memory.antt =====
-- `MemoryIdempotencyStore` of src/api/rest/idempotency.ts: the map of stored answers.
use bapc_vpn_and_digital_sec.Base.{
  ℕ, ◌+◌, String, not, Option, none, some, List, [], ◌∷◌, if◌then◌else◌, ltb, ◌==◌, number_eq,
  string_eq, filter,
}
use bapc_vpn_and_digital_sec.Rest.Idempotency.{StoredResponse}

pub record MemoryEntry : Type 0 where
  pub request_hash : String
  pub response : StoredResponse
  pub expires_at : ℕ

abbrev pub Entries : Type 0
Entries = List (String × MemoryEntry)

unfoldable pub find_entry : String → Entries → Option MemoryEntry
find_entry key [] = none
find_entry key ((k, v) ∷ m) = if k == key then some v else find_entry key m

unfoldable pub set_entry : String → MemoryEntry → Entries → Entries
set_entry key v [] = (key, v) ∷ []
set_entry key v ((k, u) ∷ m) = if k == key then (k, v) ∷ m else (k, u) ∷ set_entry key v m

unfoldable pub delete_entry : String → Entries → Entries
delete_entry key m = filter (λ e. not (e.0 == key)) m

-- An entry whose time has passed is deleted on the way.
unfoldable pub get_memory : ℕ → String → Entries → Option MemoryEntry × Entries
unfolding find_entry delete_entry
get_memory now key m = elim (find_entry key m) [
  | none ↦ (none, m)
  | some e ↦ if ltb e.expires_at now then (none, delete_entry key m) else (some e, m)
]

unfoldable pub put_memory : ℕ → ℕ → String → String → StoredResponse → Entries → Entries
unfolding set_entry
put_memory now ttl key hash response m =
    set_entry key (record { request_hash = hash; response = response; expires_at = now + ttl }) m
