-- ===== src/Projex/Fields.antt =====
-- The map that `customFields` of ingress-service/internal/yunxiao/projex/normalizer.go builds.
use yunxiao_workflow_agent.Base.{
  String, ◌≡◌, refl, Option, none, some, List, [], ◌∷◌, arith, ◌==◌, eq_iff, if◌then◌else◌, false,
  true, Bool-cases, inl, ◌∙◌, ap, inr,
}
use yunxiao_workflow_agent.Base.Text.{is_empty}
use yunxiao_workflow_agent.Base.Dict.{Dict, lookup, lookup-insert, insert}
use yunxiao_workflow_agent.Model.{FieldValue}
use yunxiao_workflow_agent.Projex.Payload.{CustomFieldValue}
use yunxiao_workflow_agent.Projex.Normalizer.{
  add_fields, custom_fields, field_key, custom_field_value,
}

-- The value of the last field with this key, if there is one.
abbrev pub last_field : String → List CustomFieldValue → Option FieldValue
last_field k [] = none
last_field k (v ∷ vs) = elim (last_field k vs) [
  | some f ↦ some f
  | none ↦ if field_key v == k then some (custom_field_value v) else none
]

abbrev or_else : Option FieldValue → Option FieldValue → Option FieldValue
or_else (some v) o = some v
or_else none o = o

add_fields_lem :
    (k : String) (result : Dict FieldValue) (vs : List CustomFieldValue)
    → is_empty k ≡ false
    → lookup k (add_fields result vs) ≡ or_else (last_field k vs) (lookup k result)
unfolding add_fields
add_fields_lem k result [] h = refl
add_fields_lem k result (v ∷ vs) h = elim (Bool-cases (is_empty (field_key v))) [
  | inl skipped ↦
      rw skipped (
        add_fields_lem k result vs h ∙ ap (λ o. or_else o (lookup k result)) (no_empty_key skipped))
  | inr kept ↦ rw kept (
      add_fields_lem k (insert (field_key v) (custom_field_value v) result) vs h
      ∙ rw (lookup-insert) (later_wins (last_field k vs)))
]
  where
    no_empty_key : is_empty (field_key v) ≡ true → last_field k vs ≡ last_field k (v ∷ vs)
    no_empty_key e = ground (arith, eq_iff (field_key v) k)

    later_wins :
        (o : Option FieldValue)
        → or_else o (if field_key v == k then some (custom_field_value v) else lookup k result)
          ≡ or_else
              (elim o [
                | some f ↦ some f
                | none ↦ if field_key v == k then some (custom_field_value v) else none
              ])
              (lookup k result)
    later_wins o = ground arith

-- In the map of `customFields`, which becomes the reference `custom_fields` of an event, every
-- non-empty key has the value of the last custom field whose first non-empty name among its
-- identifier, id and name is this key.
pub custom_fields_lem :
    (k : String) (vs : List CustomFieldValue)
    → is_empty k ≡ false
    → lookup k (custom_fields vs) ≡ last_field k vs
unfolding custom_fields lookup
custom_fields_lem k vs h = ground (arith, add_fields_lem k [] vs h)
