-- ===== src/Keys/Separation.antt =====
-- What the dedup keys of ingress-service/internal/yunxiao determine: the events that the unique key on
-- dedup_key takes for the same one.
use text.Mathlib.TextLemmas.{nil-append, cons-append, append_cancel_left}
use yunxiao_workflow_agent.Base.{
  String, ◌≡◌, ◌++◌, false, refl, ap, sym, ◌∙◌, none, suc, if◌then◌else◌, ℕ,
}
use yunxiao_workflow_agent.Base.Int.{ℤ, pos, negsuc}
use yunxiao_workflow_agent.Base.Text.{format_int, format_nat, parse_digits, is_empty}
use yunxiao_workflow_agent.Runtime.{Runtime, Bytes}
use yunxiao_workflow_agent.Ids.{payload_hash}
use yunxiao_workflow_agent.Projex
use yunxiao_workflow_agent.Keys.Colons.{has_colon, fields_split}
use yunxiao_workflow_agent.Keys.Digits.{format_nat_no_colon, format_nat_inj, format_nat-parse}

pub format_int_no_colon : (z : ℤ) → has_colon (format_int z) ≡ false
unfolding format_int
format_int_no_colon (pos n) = format_nat_no_colon n
format_int_no_colon (negsuc n) = rw (cons-append, nil-append) (format_nat_no_colon (suc n))

-- A sign is no digit.
no_sign : (n : ℕ) (s : String) → format_nat n ≡ "-" ++ s → ⊥
unfolding parse_digits
no_sign n s e = absurd (cc (sym (format_nat-parse n) ∙ ap (parse_digits 0) e ∙ refused))
  where
    refused : parse_digits 0 ("-" ++ s) ≡ none
    refused = rw (cons-append) refl

pub format_int_inj : (y z : ℤ) → format_int y ≡ format_int z → y ≡ z
unfolding format_int
format_int_inj (pos m) (pos n) e = ap pos (format_nat_inj m n e)
format_int_inj (pos m) (negsuc n) e = absurd (no_sign m _ e)
format_int_inj (negsuc m) (pos n) e = absurd (no_sign n _ (sym e))
format_int_inj (negsuc m) (negsuc n) e =
    ap negsuc (cc (format_nat_inj (suc m) (suc n) (append_cancel_left "-" _ _ e)))

-- What tells two changes of a work item apart: the time of the change, or else the hash of the body.
abbrev pub change_of : Runtime → Projex.Payload.WebhookPayload → Bytes → String
change_of rt payload body =
    if is_empty payload.gmt_modified then payload_hash rt body else payload.gmt_modified

-- Two keys of Projex events that are equal come from the same event type, work item and change, where
-- types and ids of work items have no colon.
pub projex_key_inj :
    (rt : Runtime) (p p' : Projex.Payload.WebhookPayload) (body body' : Bytes) (t t' s s' : String)
    → has_colon t ≡ false
    → has_colon t' ≡ false
    → has_colon s ≡ false
    → has_colon s' ≡ false
    → Projex.Normalizer.build_dedup_key rt t s p body
      ≡ Projex.Normalizer.build_dedup_key rt t' s' p' body'
    → (t ≡ t') × (s ≡ s') × (change_of rt p body ≡ change_of rt p' body')
unfolding Projex.Normalizer.build_dedup_key
projex_key_inj rt p p' body body' t t' s s' ht ht' hs hs' e =
    let (types, e1) = fields_split t t' _ _ ht ht' (append_cancel_left "yunxiao.projex:" _ _ e) in
    let (subjects, changes) = fields_split s s' _ _ hs hs' e1 in (types, subjects, changes)
