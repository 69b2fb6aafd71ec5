-- ===== src/Rest/RateLimit.antt =====
-- src/api/rest/rate-limit.ts, `MemoryRateLimiter`: a sliding window of hits for each key.
pub mod Laws
use bapc_vpn_and_digital_sec.Base.{
  ℕ, ◌+◌, ◌-◌, String, Bool, true, false, List, [], ◌∷◌, ◌++◌, Option, none, some, ◌==◌, string_eq,
  if◌then◌else◌, ltb, leb, length, filter,
}

pub record RateLimitRule : Type 0 where
  pub limit : ℕ
  pub window_ms : ℕ

pub record RateLimitResult : Type 0 where
  pub allowed : Bool
  pub remaining : ℕ
  pub reset_at : ℕ

-- `Map<string,number[]>`
abbrev pub Hits : Type 0
Hits = List (String × List ℕ)

unfoldable pub hits_of : String → Hits → List ℕ
hits_of key [] = []
hits_of key ((k, v) ∷ m) = if k == key then v else hits_of key m

unfoldable pub set_hits : String → List ℕ → Hits → Hits
set_hits key v [] = (key, v) ∷ []
set_hits key v ((k, u) ∷ m) = if k == key then (k, v) ∷ m else (k, u) ∷ set_hits key v m

-- A hit counts if its time is above `now - windowMs`.
abbrev pub recent : ℕ → ℕ → ℕ → Bool
recent now window_ms t = ltb now (t + window_ms)

abbrev first_or : ℕ → List ℕ → ℕ
first_or d [] = d
first_or d (t ∷ _) = t

-- With a limit of 0 the code reads `existing[0]` of an empty array; every rule of the routes is positive.
unfoldable pub check : String → RateLimitRule → ℕ → Hits → RateLimitResult × Hits
check key rule now hits =
    let existing = filter (recent now rule.window_ms) (hits_of key hits) in
    if leb rule.limit (length existing)
    then (
      record { allowed = false; remaining = 0; reset_at = first_or now existing + rule.window_ms },
      set_hits key existing hits,
    )
    else (
      record {
        allowed = true;
        remaining = rule.limit - length (existing ++ now ∷ []);
        reset_at = now + rule.window_ms;
      },
      set_hits key (existing ++ now ∷ []) hits,
    )

abbrev keep_entry : String → List ℕ → Hits → Hits
keep_entry k [] m = m
keep_entry k (t ∷ ts) m = (k, t ∷ ts) ∷ m

-- `sweep`: hits of more than an hour ago go, and keys with none left
unfoldable pub sweep : ℕ → Hits → Hits
sweep now [] = []
sweep now ((k, v) ∷ m) = keep_entry k (filter (recent now 3600000) v) (sweep now m)
