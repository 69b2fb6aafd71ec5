-- ===== src/Policy/Laws.antt =====
-- What an access decision guarantees (src/application/policy.ts).
use bapc_vpn_and_digital_sec.Base.{
  ℕ, ◌+◌, ◌≤◌, String, Bool, true, false, List, [], ◌∷◌, none, ◌≡◌, refl, ◌⊎◌, inl, inr, arith, any,
  sort, All, Bool-cases, Descending, sort-Descending, Memᴰ-of_sort, Memᴰ-of_filter, All-of_sort,
  All-of_filter, Memᴰ, higher, any_none, All-sort, All-filter_of,
}
use bapc_vpn_and_digital_sec.Domain.{
  Device, MeshNode, NetworkPolicy, IdentityContext, ResourceContext, AccessDecision, allow,
}
use bapc_vpn_and_digital_sec.Store.{Store}
use bapc_vpn_and_digital_sec.Store.Monad.{ok}
use bapc_vpn_and_digital_sec.Store.Repositories.{list_active_policies}
use bapc_vpn_and_digital_sec.Policy.{
  posture_ok, matches, has_jit, default_deny, apply_policy, first_match, judge, is_allow, decide,
}

-- Why an access is allowed: a policy of the table that is active, matches, says ALLOW and has its JIT
-- grant if it wants one, and that no active matching policy outranks.
pub record IsGranted (identity : IdentityContext) (device : Device) (node : MeshNode)
    (resource : ResourceContext) (s : Store) : Type 0 where
  pub mfa : identity.mfa ≡ true
  pub trusted : posture_ok device ≡ true
  pub node_active : node.active ≡ true
  pub policy : NetworkPolicy
  pub listed : Memᴰ policy s.policies
  pub policy_active : policy.active ≡ true
  pub matching : matches policy node resource identity.roles ≡ true
  pub allows : policy.action ≡ allow
  pub jit : (policy.requires_jit ≡ false) ⊎ (has_jit identity.user_id resource s ≡ true)
  pub highest :
      All
        (λ q.
          q.active ≡ true
          → matches q node resource identity.roles ≡ true
          → q.priority ≤ policy.priority)
        s.policies

module _ (identity : IdentityContext) (node : MeshNode) (resource : ResourceContext)
    (s : Store) where
  abbrev hits : NetworkPolicy → Bool
  hits p = matches p node resource identity.roles

  record IsLeading (ps : List NetworkPolicy) : Type 0 where
    policy : NetworkPolicy
    listed : Memᴰ policy ps
    matching : hits policy ≡ true
    verdict :
        first_match identity node resource s ps ≡ apply_policy identity.user_id resource s policy
    highest : All (λ q. hits q ≡ true → q.priority ≤ policy.priority) ps

  highest_of :
      (n : ℕ) (ps : List NetworkPolicy)
      → All (λ q. q.priority ≤ n) ps
      → All (λ q. hits q ≡ true → q.priority ≤ n) ps
  highest_of n [] a = tt
  highest_of n (q ∷ ps) a = (λ _. a.0, highest_of n ps a.1)

  skip_first :
      (p : NetworkPolicy) (ps : List NetworkPolicy)
      → hits p ≡ false
      → IsLeading ps
      → IsLeading (p ∷ ps)
  unfolding first_match
  skip_first p ps e f = record {
    policy = f.policy;
    listed = Memᴰ.tail f.listed;
    matching = f.matching;
    verdict = rw e f.verdict;
    highest = (λ t. cc, f.highest);
  }

  -- The loop over falling priorities stops at a policy that no other match outranks, or at none.
  first_match-IsLeading :
      (ps : List NetworkPolicy)
      → Descending (λ q. q.priority) ps
      → (any hits ps ≡ false) ⊎ IsLeading ps
  unfolding first_match
  first_match-IsLeading [] d = inl refl
  first_match-IsLeading (p ∷ ps) d = elim (Bool-cases (hits p)) [
    | inl e ↦ inr (record {
      policy = p;
      listed = Memᴰ.head refl;
      matching = e;
      verdict = rw e;
      highest = (λ _. omega arith, highest_of p.priority ps d.0);
    })
    | inr e ↦ elim (first_match-IsLeading ps d.1) [
      | inl none_hits ↦ inl (rw e none_hits)
      | inr f ↦ inr (skip_first p ps e f)
    ]
  ]

  first_match-none :
      (ps : List NetworkPolicy)
      → any hits ps ≡ false
      → first_match identity node resource s ps ≡ default_deny
  unfolding first_match
  first_match-none [] e = refl
  first_match-none (p ∷ ps) e = ground (arith, first_match-none ps)

module _ (identity : IdentityContext) (device : Device) (node : MeshNode)
    (resource : ResourceContext) (s : Store) where
  abbrev ranked : List NetworkPolicy
  ranked = sort (higher (λ q. q.priority)) (list_active_policies s)

  -- `judge` past its two refusals.
  judge_trusted :
      is_allow (judge identity device node resource s).action ≡ true
      → (identity.mfa ≡ true)
        × (posture_ok device ≡ true)
        × (node.active ≡ true)
        × (judge identity device node resource s ≡ first_match identity node resource s ranked)
  unfolding judge
  judge_trusted h = ground arith

  access_under :
      (f : IsLeading identity node resource s ranked)
      → is_allow (apply_policy identity.user_id resource s f.policy).action ≡ true
      → identity.mfa ≡ true
      → posture_ok device ≡ true
      → node.active ≡ true
      → IsGranted identity device node resource s
  unfolding apply_policy list_active_policies
  access_under f h m t a =
      let listed =
        Memᴰ-of_filter (λ p. p.active) f.policy s.policies
          (Memᴰ-of_sort _ f.policy _ (Memᴰ-of_sort _ f.policy _ f.listed)) in
      record {
        mfa = m;
        trusted = t;
        node_active = a;
        policy = f.policy;
        listed = listed.0;
        policy_active = listed.1;
        matching = f.matching;
        allows = ground arith;
        jit = ground arith;
        highest =
            All-of_filter (λ p. p.active) _ s.policies
              (All-of_sort _ _ _ (All-of_sort _ _ _ f.highest));
      }

  judge-IsGranted :
      is_allow (judge identity device node resource s).action ≡ true
      → IsGranted identity device node resource s
  judge-IsGranted h =
      let (m, t, a, e) = judge_trusted h in
      elim (first_match-IsLeading identity node resource s ranked
        (sort-Descending (λ q. q.priority) (list_active_policies s))) [
          | inl missed ↦ cc (e, first_match-none identity node resource s ranked missed)
          | inr f ↦ access_under f (rw (← f.verdict) (rw (← e) h)) m t a
        ]

-- An access that is allowed has all of these: multi-factor authentication, a device in good posture
-- that is neither revoked nor compromised, an active node, and a policy of the table that is active,
-- matches, says ALLOW, has an active JIT grant where it requires one, and that no active matching
-- policy outranks in priority.
pub decide-IsGranted :
    (sign : AccessDecision → String) (refresh_ms : ℕ) (identity : IdentityContext) (device : Device)
    (node : MeshNode) (resource : ResourceContext) (s t : Store) (d : AccessDecision)
    (signature : String)
    → decide sign refresh_ms identity device node resource s ≡ (ok (d, signature), t)
    → d.allowed ≡ true
    → IsGranted identity device node resource s
unfolding decide
decide-IsGranted sign refresh_ms identity device node resource s t d signature e h =
    judge-IsGranted identity device node resource s (ground arith)

abbrev NoMatch : IdentityContext → MeshNode → ResourceContext → NetworkPolicy → Type 0
NoMatch identity node resource q = q.active ≡ true → matches q node resource identity.roles ≡ false

judge_default :
    (identity : IdentityContext) (device : Device) (node : MeshNode) (resource : ResourceContext)
    (s : Store)
    → identity.mfa ≡ true
    → posture_ok device ≡ true
    → node.active ≡ true
    → All (NoMatch identity node resource) s.policies
    → judge identity device node resource s ≡ default_deny
unfolding judge list_active_policies
judge_default identity device node resource s m t a none_match =
    let missed =
      first_match-none identity node resource s (ranked identity device node resource s) (
        any_none (hits identity node resource s) _ (
          All-sort _ _ _
            (All-sort _ _ _ (All-filter_of (λ p. p.active) _ s.policies none_match)))) in
    simp (m, t, a) missed

-- Where no active policy matches, a trusted device of an authenticated user on an active node is denied
-- by default: the decision names no policy and expires after the refresh time.
pub decide_default :
    (sign : AccessDecision → String) (refresh_ms : ℕ) (identity : IdentityContext) (device : Device)
    (node : MeshNode) (resource : ResourceContext) (s : Store)
    → identity.mfa ≡ true
    → posture_ok device ≡ true
    → node.active ≡ true
    → All (NoMatch identity node resource) s.policies
    → (d : AccessDecision) × ((decide sign refresh_ms identity device node resource s).0
        ≡ ok (d, sign d))
      × (d.allowed ≡ false)
      × (d.reason ≡ "default deny")
      × (d.policy_id ≡ none)
      × (d.expires_at ≡ s.now + refresh_ms)
unfolding decide
decide_default sign refresh_ms identity device node resource s m t a none_match =
    let e = judge_default identity device node resource s m t a none_match in
    (_, refl, rw e, rw e, rw e, refl)
