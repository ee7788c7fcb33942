-- ===== src/Transport/Identity.antt =====
-- Whom a reply speaks of (custom_components/hubinet_ops/packages/transport.py).
use hubinet_ops_next.Prelude.{
  ◌≡◌, refl, ap, ◌∙◌, Bool, true, false, not, ◌||◌, Option, none, some, arith, Text, text_eq, codes,
  if_cases,
}
use hubinet_ops_next.Prelude.Results.{Result, ok, err, Answer, returned, raised, unexpected}
use hubinet_ops_next.Models.{UpdateOutcome}
use hubinet_ops_next.Transport.{
  Value, object, text, target_contradicts, Fields, get, is_true, has_protocol, has_operation,
  Target, target_matches, valid_target, Failure, timeout, fields_of, ◌>>=◌, refuse_if, present,
}
use hubinet_ops_next.Transport.Reply.{
  Operation, operation_name, update_evidence, parse_update_response, update_request, replied,
  request_result, classified, classification_in,
}

after_at :
    {E A B C : Type 0} (m : Answer E A) (f : A → Answer E B) {b : B}
    → (m >>= f) ≡ returned b
    → ((a : A) → m ≡ returned a → f a ≡ returned b → C)
    → C
unfolding ◌>>=◌
after_at (returned a) f h next = next a refl h
after_at (raised e) f h next = cc
after_at unexpected f h next = cc

-- Steps that returned did so one by one.
pub after :
    {E A B C : Type 0} {m : Answer E A} {f : A → Answer E B} {b : B}
    → (m >>= f) ≡ returned b
    → ((a : A) → m ≡ returned a → f a ≡ returned b → C)
    → C
after {m} {f} h next = after_at m f h next

pub past :
    {E B C : Type 0} (c : Bool) (e : E) (f : Unit {0} → Answer E B) {b : B}
    → (refuse_if c e >>= f) ≡ returned b
    → (c ≡ false → f tt ≡ returned b → C)
    → C
unfolding ◌>>=◌ refuse_if
past true e f h next = cc
past false e f h next = next refl h

pub present_lem :
    {E A : Type 0} (e : E) (o : Option A) (a : A) → present e o ≡ returned a → o ≡ some a
unfolding present
present_lem e none a h = cc
present_lem e (some b) a h = cc

-- A successful reply to this operation, of this very target.
pub record IsReply (t : Target) (operation : Text) (p e : Fields) : Type 0 where
  pub protocol : has_protocol p ≡ true
  pub operates : has_operation operation p ≡ true
  pub is_ok : is_true (get "ok" p) ≡ true
  pub same_target : target_matches t (get "target" p) ≡ true
  pub evidence : fields_of (get "evidence" p) ≡ some e

-- A classified failure is no result.
classified_lem :
    {C : Type 0} (op : Operation) (c : Option Value) (e : Fields) → classified op c ≡ returned e → C
classified_lem {C} op none e = λ h. cc
classified_lem {C} op (some (text s)) e =
    if_cases (λ r. r ≡ returned e → C) (text_eq s (codes "package_manager_busy")) _ _ (λ f h. cc)
      λ f.
        if_cases (λ r. r ≡ returned e → C)
          (text_eq s (codes "guest_unavailable") || text_eq s (codes "identity_mismatch")) _ _
          (λ g h. cc) λ g h. cc
classified_lem {C} op (some Value.null) e = λ h. cc
classified_lem {C} op (some Value.float) e = λ h. cc
classified_lem {C} op (some Value.array) e = λ h. cc
classified_lem {C} op (some (Value.bool b)) e = λ h. cc
classified_lem {C} op (some (Value.int n)) e = λ h. cc
classified_lem {C} op (some (object fs)) e = λ h. cc

update_evidence-IsReply :
    (t : Target) (op : Operation) (p e : Fields)
    → update_evidence t op p ≡ returned e
    → IsReply t (operation_name op) p e
unfolding update_evidence
update_evidence-IsReply t op p e =
    if_cases (λ r. r ≡ returned e → IsReply t (operation_name op) p e)
      (not (has_protocol p) || not (has_operation (operation_name op) p)) _ _ (λ f h. cc)
      λ f.
        if_cases (λ r. r ≡ returned e → IsReply t (operation_name op) p e) (is_true (get "ok" p)) _
          _
          (λ g.
            if_cases (λ r. r ≡ returned e → IsReply t (operation_name op) p e)
              (not (target_matches t (get "target" p))) _ _ (λ q h. cc)
              λ q h. record {
                protocol = ground arith;
                operates = ground arith;
                is_ok = g;
                same_target = ground arith;
                evidence = present_lem _ (fields_of (get "evidence" p)) e h;
              })
          λ g.
            if_cases (λ r. r ≡ returned e → IsReply t (operation_name op) p e)
              (target_contradicts t (get "target" p)) _ _ (λ q h. cc)
              λ q h. classified_lem op (classification_in (fields_of (get "error" p))) e h

request_result_lem :
    (late lost : UpdateOutcome) (r : Result Failure Value) (v : Value)
    → request_result late lost r ≡ returned v
    → r ≡ ok v
request_result_lem late lost (ok w) v h = cc
request_result_lem late lost (err timeout) v h = cc
request_result_lem late lost (err Failure.host_key) v h = cc
request_result_lem late lost (err Failure.authentication) v h = cc
request_result_lem late lost (err (Failure.connection s)) v h = cc
request_result_lem late lost (err (Failure.unavailable s)) v h = cc
request_result_lem late lost (err (Failure.protocol s)) v h = cc

update_request_lem :
    (t : Target) (late lost : UpdateOutcome) (r : Result Failure Value) (v : Value)
    → update_request t late lost r ≡ returned v
    → (valid_target t ≡ true) × (r ≡ ok v)
unfolding update_request
update_request_lem t late lost r v =
    if_cases (λ x. x ≡ returned v → (valid_target t ≡ true) × (r ≡ ok v)) (not (valid_target t)) _ _
      (λ f h. cc) λ f h. (ground arith, request_result_lem late lost r v h)

parse_update_response_lem :
    (t : Target) (op : Operation) (v : Value) (e : Fields)
    → parse_update_response t op v ≡ returned e
    → (p : Fields) × (v ≡ object p) × (update_evidence t op p ≡ returned e)
unfolding parse_update_response
parse_update_response_lem t op (object p) e h = (p, refl, h)
parse_update_response_lem t op (text s) e h = cc
parse_update_response_lem t op Value.null e h = cc
parse_update_response_lem t op Value.float e h = cc
parse_update_response_lem t op Value.array e h = cc
parse_update_response_lem t op (Value.bool b) e h = cc
parse_update_response_lem t op (Value.int n) e h = cc

-- What a request of an update or a cleanup returns is the evidence of a successful reply to it, of
-- the very target that was asked for, which is a valid one.
pub replied-IsReply :
    (t : Target) (op : Operation) (late lost : UpdateOutcome) (r : Result Failure Value)
    (e : Fields)
    → replied t op late lost r ≡ returned e
    → (valid_target t ≡ true)
      × ((p : Fields) × (r ≡ ok (object p)) × IsReply t (operation_name op) p e)
unfolding replied
replied-IsReply t op late lost r e h = after h λ v requested h1.
    let (valid, got) = update_request_lem t late lost r v requested in
    let (p, is_object, found) = parse_update_response_lem t op v e h1 in
    (valid, (p, got ∙ ap ok is_object, update_evidence-IsReply t op p e found))
