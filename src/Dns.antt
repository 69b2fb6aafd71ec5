-- ===== src/Dns.antt =====
-- src/application/dns-protection.ts (`DnsProtectionService.evaluate`) and services/dns/resolver.ts
-- (`SecureDnsResolver.resolve`). `normalize` is the normalisation of a name and `well_formed` the test of
-- the regular expression. The writer of the audit may fail, and an upstream answers or fails.
pub mod Laws
use bapc_vpn_and_digital_sec.Base.{
  ℕ, ◌+◌, ◌-◌, ◌*◌, String, Bool, not, ◌&&◌, Option, none, some, List, [], ◌∷◌, if◌then◌else◌, ltb,
  eq_ℕ, number_eq, string_eq, length, any, all, contains, codes,
}
use bapc_vpn_and_digital_sec.Domain.{Error, plain}
use bapc_vpn_and_digital_sec.Store.Monad.{Result, ok, err}

pub data QueryType : Type 0 where
  a aaaa txt mx : QueryType

pub record Answer : Type 0 where
  pub type : String
  pub value : String
  pub ttl : ℕ

pub data DnsAction : Type 0 where
  allow sinkhole : DnsAction

pub record DnsDecision : Type 0 where
  pub action : DnsAction
  pub normalized_domain : String
  pub reason : String

abbrev sunk : String → String → DnsDecision
sunk domain reason = record { action = sinkhole; normalized_domain = domain; reason = reason }

-- `d.split(".")[0]`, as code points: the letters before the first dot, which is 46
abbrev pub first_label : List ℕ → List ℕ
first_label [] = []
first_label (c ∷ cs) = if eq_ℕ c 46 then [] else c ∷ first_label cs

-- `new Set(label).size`
abbrev pub distinct : List ℕ → ℕ
distinct [] = 0
distinct (c ∷ cs) = let rest = distinct cs in if contains cs c then rest else rest + 1

-- `label.length>24&&new Set(label).size/label.length>.55`
unfoldable pub entropy_like : String → Bool
entropy_like domain =
    let label = first_label (codes domain) in
    ltb 24 (length label) && ltb (55 * length label) (100 * distinct label)

module _ (normalize : String → String) (well_formed : String → Bool) where
  -- The feeds answer one after another; the first that contains the name decides.
  unfoldable pub evaluate : List (String → Bool) → String → DnsDecision
  evaluate feeds name =
      if not (well_formed (normalize name))
      then sunk (normalize name) "invalid or suspicious domain"
      else if any (λ feed. feed (normalize name)) feeds
      then sunk (normalize name) "threat-feed match"
      else if entropy_like (normalize name)
      then sunk (normalize name) "possible domain-generation algorithm"
      else record { action = allow; normalized_domain = normalize name; reason = "no threat match" }

  abbrev pub Upstream : Type 0
  Upstream = String → QueryType → Result (List Answer)

  -- the loop over the upstreams, with the last error
  unfoldable pub ask : List Upstream → String → QueryType → Option Error → Result (List Answer)
  ask [] name type none = err (plain "all encrypted DNS upstreams failed")
  ask [] name type (some e) = err e
  ask (u ∷ us) name type last = elim (u name type) [
    | ok answers ↦ ok answers
    | err e ↦ ask us name type (some e)
  ]

  unfoldable pub sinkhole_answer : String → QueryType → List Answer
  sinkhole_answer v4 a = record { type = "A"; value = v4; ttl = 30 } ∷ []
  sinkhole_answer v4 aaaa = record { type = "AAAA"; value = "fd14:4b41:5043::53"; ttl = 30 } ∷ []
  sinkhole_answer v4 _ = []

  abbrev answer_for : DnsDecision → String → List Upstream → QueryType → Result (List Answer)
  answer_for d v4 upstreams type = elim d.action [
    | sinkhole ↦ ok (sinkhole_answer v4 type)
    | allow ↦ ask upstreams d.normalized_domain type none
  ]

  -- A failure to write the audit is reported on the console and goes no further. `write` is the audit's
  -- state after the attempt, whether it failed or not.
  unfoldable pub resolve :
      {W : Type 0}
      → (DnsDecision → W → Result (Unit {0}) × W)
      → List (String → Bool)
      → String
      → List Upstream
      → String
      → QueryType
      → W
      → Result (List Answer) × W
  unfolding evaluate
  resolve write feeds v4 upstreams name type w =
      let d = evaluate feeds name in (answer_for d v4 upstreams type, (write d w).1)
