-- ===== src/Clearance/Laws.antt =====
-- When a clearance is accepted (integrations/diagnostics-clearance.ts).
use bapc_vpn_and_digital_sec.Base.{
  String, ◌≡◌, refl, sym, ap, ◌∙◌, Bool, true, false, not, ◌||◌, Option, none, some, arith, ◌==◌,
  string_eq, codes, starts, eq_of_==,
}
use bapc_vpn_and_digital_sec.Json.{Json, str, get_field, is_text, is_truthy}
use bapc_vpn_and_digital_sec.Domain.{Error, plain}
use bapc_vpn_and_digital_sec.Store.{Store}
use bapc_vpn_and_digital_sec.Store.Monad.{M, Result, ok, err, then_run, throw_if, or_throw}
use bapc_vpn_and_digital_sec.Store.Commands.{publish}
use bapc_vpn_and_digital_sec.Clearance.{
  Clearance, Signing, is_nullish, or_null, signed_body, call, outside, accept, scoped, verify,
}

module _ {A B : Type 0} where
  -- A chain that succeeds, succeeds in its first step.
  then_run_ok :
      (r : Result A × Store) (f : A → M B) (b : B) (t : Store)
      → then_run r f ≡ (ok b, t)
      → (a : A) × (u : Store) × (r ≡ (ok a, u)) × (f a u ≡ (ok b, t))
  then_run_ok (ok a, s) f b t h = (a, s, refl, h)
  then_run_ok (err e, s) f b t h = elim (absurd h) [ ]
    where
      absurd : ◌≡◌ {A = Result B × Store} (err e, s) (ok b, t) → ⊥
      absurd h = cc

throw_if_ok :
    (b : Bool) (e : Error) (s t : Store) → throw_if b e s ≡ (ok tt, t) → (b ≡ false) × (t ≡ s)
throw_if_ok true e s t h = cc
throw_if_ok false e s t h = (refl, cc)

or_throw_ok :
    {A : Type 0} (o : Option A) (e : Error) (s t : Store) (a : A)
    → or_throw o e s ≡ (ok a, t)
    → (o ≡ some a) × (t ≡ s)
or_throw_ok none e s t a h = cc
or_throw_ok (some b) e s t a h = (cc, cc)

call_ok :
    {A : Type 0} (r : Result A) (s t : Store) (a : A) → call r s ≡ (ok a, t) → (r ≡ ok a) × (t ≡ s)
call_ok r s t a h = (cc, cc)

returned_ok :
    {A : Type 0} (a b : A) (s t : Store)
    → ◌≡◌ {A = Result A × Store} (ok a, s) (ok b, t)
    → (a ≡ b) × (t ≡ s)
returned_ok a b s t h = (cc, cc)

passed : (b : Bool) → not b ≡ false → b ≡ true
passed true h = refl
passed false h = cc

neither : (a b : Bool) → (not a || not b) ≡ false → (a ≡ true) × (b ≡ true)
neither true true h = (refl, refl)
neither true false h = cc
neither false b h = cc

same_bytes : (a b : String) (r : Result String) → not (a == b) ≡ false → r ≡ ok a → r ≡ ok b
same_bytes a b r h e = e ∙ ap ok (eq_of_== a b (passed (a == b) h))

module _ (g : Signing) where
  -- The bytes of the signature of an event, however it is written, are those of the keyed hash of its contents
  -- under the key of Diagnostics.
  abbrev pub IsSigned : Json → Type 0
  IsSigned e =
      (signature : String) × (g.bytes (get_field "signature" e) ≡ ok signature)
      × (g.bytes (some (str (g.hmac "diagnostics" (g.stringify (signed_body e))))) ≡ ok signature)

  accept_ok :
      (e : Json) (s t : Store)
      → accept g e s ≡ (ok tt, t)
      → (outside s.now (g.time_of (get_field "at" e)) ≡ false)
        × IsSigned e
        × (t ≡ publish "ecosystem.diagnostics.forensic.clearance" e s)
  unfolding accept
  accept_ok e s t h =
      let (_, u, p, h1) = then_run_ok _ _ tt t h in
      let (near, same) = throw_if_ok _ _ s u p in
      let (expected, v, q, h2) = then_run_ok _ _ tt t h1 in
      let (found, same') = call_ok _ u v expected q in
      let (signature, w, r, h3) = then_run_ok _ _ tt t h2 in
      let (found', same'') = call_ok _ v w signature r in
      let (_, x, y, h4) = then_run_ok _ _ tt t h3 in
      let (signed, same3) = throw_if_ok (not (expected == signature)) _ w x y in
      (
        near,
        (signature, found', same_bytes expected signature _ signed found),
        sym (ap (λ r. r.1) h4)
            ∙ ap (publish "ecosystem.diagnostics.forensic.clearance" e)
                (same3 ∙ same'' ∙ same' ∙ same),
      )

  -- the payload names the node, and who approved the clearance for which case
  abbrev pub IsScoped : Json → String → Clearance → Type 0
  IsScoped e node_id c =
      (is_text node_id (get_field "nodeId" (or_null (get_field "payload" e))) ≡ true)
      × (is_truthy c.approved_by ≡ true)
      × (is_truthy c.case_id ≡ true)

  scoped_ok :
      (e : Json) (node_id : String) (c : Clearance) (s t : Store)
      → scoped g e node_id s ≡ (ok c, t)
      → IsScoped e node_id c × (t ≡ s)
  unfolding scoped
  scoped_ok e node_id c s t h =
      let payload = or_null (get_field "payload" e) in
      let name_test = is_text node_id (get_field "nodeId" payload) in
      let by_test = is_truthy (get_field "approvedBy" payload) in
      let case_test = is_truthy (get_field "caseId" payload) in
      let (_, u, p, h1) = then_run_ok _ _ c t h in
      let (_, same) = throw_if_ok (is_nullish (get_field "payload" e)) (plain "TypeError") s u p in
      let (_, v, q, h2) = then_run_ok _ _ c t h1 in
      let (named, same') =
        throw_if_ok (not name_test) (plain "clearance token is not scoped to this node") u v q in
      let (_, w, r, h3) = then_run_ok _ _ c t h2 in
      let (given, same'') =
        throw_if_ok (not by_test || not case_test)
          (plain "clearance token is missing approvedBy/caseId") v w r in
      let (by, case) = neither by_test case_test given in
      let (same_value, last) =
        returned_ok
          (record {
            approved_by = get_field "approvedBy" payload;
            case_id = get_field "caseId" payload;
          })
          c w t h3 in
      (
        (passed name_test named, rw (sym same_value) by, rw (sym same_value) case),
        last ∙ same'' ∙ same' ∙ same,
      )

  -- A token is accepted as the clearance of a node only if it has the prefix and decodes to a clearance event of
  -- Diagnostics that is signed with its key, whose time, if it can be read, is at most five minutes off, and
  -- whose payload names the node, an approver and a case. Then one event is published and no other table changes.
  pub verify_sound :
      (token node_id : String) (c : Clearance) (s t : Store)
      → verify g token node_id s ≡ (ok c, t)
      → (starts (codes "diag-clearance:") (codes token) ≡ true)
        × ((e : Json) × (g.decode token ≡ some e)
            × (is_text "diagnostics" (get_field "source" e) ≡ true)
            × (is_text "forensic.clearance" (get_field "type" e) ≡ true)
            × (outside s.now (g.time_of (get_field "at" e)) ≡ false)
            × IsSigned e
            × IsScoped e node_id c
            × (t ≡ publish "ecosystem.diagnostics.forensic.clearance" e s))
  unfolding verify
  verify_sound token node_id c s t h =
      let (_, s1, p1, h1) = then_run_ok _ _ c t h in
      let (prefix, q1) = throw_if_ok _ _ s s1 p1 in
      let (e, s2, p2, h2) = then_run_ok _ _ c t h1 in
      let (decoded, q2) = or_throw_ok _ _ s1 s2 e p2 in
      let (_, s3, p3, h3) = then_run_ok _ _ c t h2 in
      let (present, q3) = throw_if_ok (is_nullish (some e)) (plain "TypeError") s2 s3 p3 in
      let (_, s4, p4, h4) = then_run_ok _ _ c t h3 in
      let (source, q4) = throw_if_ok _ _ s3 s4 p4 in
      let (_, s5, p5, h5) = then_run_ok _ _ c t h4 in
      let (type, q5) = throw_if_ok _ _ s4 s5 p5 in
      let (_, s6, p6, h6) = then_run_ok _ _ c t h5 in
      let (near, signed, published) = accept_ok e s5 s6 p6 in
      let (payload, q6) = scoped_ok e node_id c s6 t h6 in
      let start : s5 ≡ s = q5 ∙ q4 ∙ q3 ∙ q2 ∙ q1 in
      (
        passed _ prefix,
        (
          e,
          decoded,
          passed _ source,
          passed _ type,
          sym (ap (λ u. outside u.now (g.time_of (get_field "at" e))) start) ∙ near,
          signed,
          payload,
          q6 ∙ published ∙ ap (publish "ecosystem.diagnostics.forensic.clearance" e) start,
        ),
      )

  -- Whether a token is accepted depends on the clock alone: no nonce is kept, so that a token which was accepted is
  -- accepted again while the clock is the same, whatever was written in between.
  pub verify_again :
      (token node_id : String) (s u : Store)
      → u.now ≡ s.now
      → (verify g token node_id u).0 ≡ (verify g token node_id s).0
  unfolding verify accept scoped publish
  verify_again token node_id s u e = ground (arith, e)
