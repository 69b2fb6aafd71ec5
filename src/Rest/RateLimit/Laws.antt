-- ===== src/Rest/RateLimit/Laws.antt =====
-- The bound that the rate limiter keeps (src/api/rest/rate-limit.ts).
use bapc_vpn_and_digital_sec.Base.{
  ℕ, ◌+◌, ◌≤◌, ◌<◌, String, Bool, true, false, List, [], ◌∷◌, ◌++◌, ◌≡◌, refl, ◌==◌, string_eq,
  arith, leb, length, filter, length-append, filter-append, Bool-cases, inl, inr, ==_refl, eq_of_==,
  if◌then◌else◌, ◌↔◌,
}
use bapc_vpn_and_digital_sec.Rest.RateLimit.{RateLimitRule, Hits, hits_of, set_hits, recent, check}

pub hits_of-set_hits :
    (key j : String) (v : List ℕ) (m : Hits)
    → hits_of j (set_hits key v m) ≡ (if key == j then v else hits_of j m)
unfolding hits_of set_hits
hits_of-set_hits key j v [] = refl
hits_of-set_hits key j v ((k, u) ∷ m) = ground (
  arith,
  hits_of-set_hits key j v m,
  eq_of_== k key,
  eq_of_== k j,
  eq_of_== key j,
  ==_refl j,
  ==_refl key,
)

abbrev pub live_hits : String → RateLimitRule → ℕ → Hits → ℕ
live_hits key rule now m = length (filter (recent now rule.window_ms) (hits_of key m))

filter_again : (p : ℕ → Bool) (xs : List ℕ) → filter p (filter p xs) ≡ filter p xs
filter_again p [] = refl
filter_again p (x ∷ xs) = elim (Bool-cases (p x)) [
  | inl e ↦ rw (e, e) (rw (filter_again p xs))
  | inr e ↦ rw e (filter_again p xs)
]

live_after :
    (key : String) (rule : RateLimitRule) (now : ℕ) (v : List ℕ) (m : Hits)
    → live_hits key rule now (set_hits key v m) ≡ length (filter (recent now rule.window_ms) v)
live_after key rule now v m = simp (hits_of-set_hits, ==_refl)

count_now :
    (now window_ms : ℕ) (xs : List ℕ)
    → 0 < window_ms
    → length (filter (recent now window_ms) (filter (recent now window_ms) xs ++ now ∷ []))
      ≡ length (filter (recent now window_ms) xs) + 1
count_now now window_ms xs h =
    rw (filter-append (recent now window_ms) (filter (recent now window_ms) xs) (now ∷ [])) (
      rw (filter_again (recent now window_ms) xs)
        (ground (arith, length-append (filter (recent now window_ms) xs) (now ∷ []))))

-- Under a rule with a window, `check` allows a request exactly when fewer than `limit` allowed requests
-- of the key lie within the window, and then it counts this one; a refused request is not counted; and
-- the hits of no other key change.
pub check_lem :
    (key other : String) (rule : RateLimitRule) (now : ℕ) (m : Hits)
    → 0 < rule.window_ms
    → (((check key rule now m).0.allowed ≡ true) ↔ (live_hits key rule now m < rule.limit))
      × (live_hits key rule now (check key rule now m).1
          ≡ live_hits key rule now m + (if (check key rule now m).0.allowed then 1 else 0))
      × ((key == other) ≡ false → hits_of other (check key rule now m).1 ≡ hits_of other m)
unfolding check
check_lem key other rule now m h = elim (Bool-cases (leb rule.limit (live_hits key rule now m))) [
  | inl full ↦ rw full (
    ((λ e. cc), λ l. absurd (ground arith)),
    rw (live_after key rule now _ m, filter_again (recent now rule.window_ms) (hits_of key m))
        (omega arith),
    λ d. rw (hits_of-set_hits key other _ m) (rw d),
  )
  | inr room ↦ rw room (
    ((λ _. ground arith), λ _. refl),
    rw (live_after key rule now _ m) (count_now now rule.window_ms (hits_of key m) h),
    λ d. rw (hits_of-set_hits key other _ m) (rw d),
  )
]

-- A schedule of requests of one key: the times do not fall.
abbrev pub Rising : ℕ → List ℕ → Type 0
Rising t [] = Unit {0}
Rising t (u ∷ us) = (t ≤ u) × Rising u us

-- the times of the requests of a key that the limiter allows
unfoldable pub run : String → RateLimitRule → List ℕ → Hits → List ℕ
run key rule [] m = []
run key rule (now ∷ later) m =
    let (result, next) = check key rule now m in
    let rest = run key rule later next in if result.allowed then now ∷ rest else rest

live_later :
    (window_ms a b : ℕ) (xs : List ℕ)
    → a ≤ b
    → length (filter (recent b window_ms) xs) ≤ length (filter (recent a window_ms) xs)
live_later window_ms a b [] h = omega arith
live_later window_ms a b (x ∷ xs) h = ground (arith, live_later window_ms a b xs h)

-- A later window sees nothing of what an earlier one does not.
filter_later :
    (window_ms a b : ℕ) (xs : List ℕ)
    → a ≤ b
    → filter (recent b window_ms) (filter (recent a window_ms) xs) ≡ filter (recent b window_ms) xs
filter_later window_ms a b [] h = refl
filter_later window_ms a b (x ∷ xs) h = ground (arith, filter_later window_ms a b xs h)

abbrev pub last_time : ℕ → List ℕ → ℕ
last_time t [] = t
last_time t (u ∷ us) = last_time u us

last_time_later : (t : ℕ) (times : List ℕ) → Rising t times → t ≤ last_time t times
last_time_later t [] r = omega arith
last_time_later t (u ∷ us) r = ground (arith, last_time_later u us r.1)

-- how many of some times lie within the window that ends at `now`
abbrev pub count : RateLimitRule → ℕ → List ℕ → ℕ
count rule now xs = length (filter (recent now rule.window_ms) xs)

check_later :
    (key : String) (rule : RateLimitRule) (u now : ℕ) (m : Hits)
    → u ≤ now
    → count rule now (hits_of key (check key rule u m).1)
      ≡ count rule now (hits_of key m)
        + (if (check key rule u m).0.allowed then count rule now (u ∷ []) else 0)
unfolding check
check_later key rule u now m h = elim (Bool-cases (leb rule.limit (live_hits key rule u m))) [
  | inl full ↦ rw full (
      rw
        (
          hits_of-set_hits key key (filter (recent u rule.window_ms) (hits_of key m)) m,
          ==_refl key,
          filter_later rule.window_ms u now (hits_of key m) h,
        )
        (omega arith))
  | inr room ↦ rw room (
      rw
        (
          hits_of-set_hits key key (filter (recent u rule.window_ms) (hits_of key m) ++ u ∷ []) m,
          ==_refl key,
          filter-append (recent now rule.window_ms)
              (filter (recent u rule.window_ms) (hits_of key m)) (u ∷ []),
          filter_later rule.window_ms u now (hits_of key m) h,
        )
        (length-append (filter (recent now rule.window_ms) (hits_of key m)) _))
]

run_step :
    (key : String) (rule : RateLimitRule) (u now : ℕ) (us : List ℕ) (m : Hits)
    → count rule now (run key rule (u ∷ us) m)
      ≡ count rule now (run key rule us (check key rule u m).1)
        + (if (check key rule u m).0.allowed then count rule now (u ∷ []) else 0)
unfolding run
run_step key rule u now us m = ground arith

run_bounded_from :
    (key : String) (rule : RateLimitRule) (t : ℕ) (times : List ℕ) (m : Hits)
    → 0 < rule.window_ms
    → Rising t times
    → live_hits key rule t m ≤ rule.limit
    → count rule (last_time t times) (run key rule times m)
        + count rule (last_time t times) (hits_of key m)
      ≤ rule.limit
unfolding run
run_bounded_from key rule t [] m w r h = omega arith
run_bounded_from key rule t (u ∷ us) m w r h =
    let step = check_lem key key rule u m w in
    let before = live_later rule.window_ms t u (hits_of key m) r.0 in
    let now = last_time u us in
    let next =
      run_bounded_from key rule u us (check key rule u m).1 w r.1 (ground (arith, step, before)) in
    let seen = check_later key rule u now m (last_time_later u us r.1) in
    let ran = run_step key rule u now us m in omega (arith, ran, seen, next)

-- Of the requests of one key at times that do not fall, under a rule with a window, the limiter allows no more
-- than `limit` whose times lie within the window that ends at the last request.
pub run_bounded :
    (key : String) (rule : RateLimitRule) (times : List ℕ)
    → 0 < rule.window_ms
    → Rising 0 times
    → count rule (last_time 0 times) (run key rule times []) ≤ rule.limit
unfolding hits_of
run_bounded key rule times w r =
    ground (arith, run_bounded_from key rule 0 times [] w r (omega arith))
