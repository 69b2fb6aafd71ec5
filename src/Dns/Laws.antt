-- ===== src/Dns/Laws.antt =====
-- What the resolver promises (services/dns/resolver.ts).
use bapc_vpn_and_digital_sec.Base.{
  String, ◌≡◌, refl, inl, inr, Bool, true, not, ◌||◌, List, number_eq, string_eq, Bool-cases, any,
}
use bapc_vpn_and_digital_sec.Store.Monad.{Result, ok}
use bapc_vpn_and_digital_sec.Dns.{
  QueryType, DnsDecision, evaluate, Upstream, sinkhole_answer, resolve,
}

module _ (normalize : String → String) (well_formed : String → Bool) where
  -- A name that is ill-formed, or that a feed lists, is answered from the sinkhole: no upstream is asked,
  -- whichever there are, and a failure of the audit does not keep the answer back.
  pub resolve_sunk :
      {W : Type 0} (write : DnsDecision → W → Result (Unit {0}) × W) (feeds : List (String → Bool))
      (v4 : String) (upstreams : List (Upstream normalize well_formed)) (name : String)
      (type : QueryType) (w : W)
      → not (well_formed (normalize name)) || any (λ feed. feed (normalize name)) feeds ≡ true
      → (resolve normalize well_formed write feeds v4 upstreams name type w).0
        ≡ ok (sinkhole_answer normalize well_formed v4 type)
  unfolding resolve evaluate
  resolve_sunk write feeds v4 upstreams name type w h =
      elim (Bool-cases (well_formed (normalize name))) [
        | inr e ↦ rw e refl
        | inl e ↦ rw (e, listed name feeds e h) refl
      ]
    where
      listed :
          (name : String) (feeds : List (String → Bool))
          → well_formed (normalize name) ≡ true
          → not (well_formed (normalize name)) || any (λ feed. feed (normalize name)) feeds ≡ true
          → any (λ feed. feed (normalize name)) feeds ≡ true
      listed name feeds e h = rw e at h
