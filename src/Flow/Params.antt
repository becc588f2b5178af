-- ===== src/Flow/Params.antt =====
-- The maps that the adapters of ingress-service/internal/yunxiao build from lists.
use yunxiao_workflow_agent.Base.{
  String, ◌≡◌, refl, Option, none, some, List, [], ◌∷◌, arith, ◌==◌, eq_iff, if◌then◌else◌, false,
  true, Bool-cases, inl, ◌∙◌, ap, inr,
}
use yunxiao_workflow_agent.Base.Text.{is_empty}
use yunxiao_workflow_agent.Base.Dict.{Dict, lookup, lookup-insert, insert}
use yunxiao_workflow_agent.Flow.Payload.{GlobalParam}
use yunxiao_workflow_agent.Flow.Normalizer.{add_params, global_params_map}

-- The value of the last parameter with this key, if there is one.
abbrev pub last_value : String → List GlobalParam → Option String
last_value k [] = none
last_value k (p ∷ ps) = elim (last_value k ps) [
  | some v ↦ some v
  | none ↦ if p.key == k then some p.value else none
]

abbrev or_else : Option String → Option String → Option String
or_else (some v) o = some v
or_else none o = o

add_params_lem :
    (k : String) (values : Dict String) (ps : List GlobalParam)
    → is_empty k ≡ false
    → lookup k (add_params values ps) ≡ or_else (last_value k ps) (lookup k values)
unfolding add_params
add_params_lem k values [] h = refl
add_params_lem k values (p ∷ ps) h = elim (Bool-cases (is_empty p.key)) [
  | inl skipped ↦
      rw skipped (
        add_params_lem k values ps h ∙ ap (λ o. or_else o (lookup k values)) (no_empty_key skipped))
  | inr kept ↦ rw kept (
      add_params_lem k (insert p.key p.value values) ps h
      ∙ rw (lookup-insert) (later_wins (last_value k ps)))
]
  where
    no_empty_key : is_empty p.key ≡ true → last_value k ps ≡ last_value k (p ∷ ps)
    no_empty_key e = ground (arith, eq_iff p.key k)

    later_wins :
        (o : Option String)
        → or_else o (if p.key == k then some p.value else lookup k values)
          ≡ or_else
              (elim o [ some v ↦ some v | none ↦ if p.key == k then some p.value else none ])
              (lookup k values)
    later_wins o = ground arith

-- In the map of `globalParamsMap` every non-empty key has the value of its last parameter.
pub global_params_map_lem :
    (k : String) (ps : List GlobalParam)
    → is_empty k ≡ false
    → lookup k (global_params_map ps) ≡ last_value k ps
unfolding global_params_map lookup
global_params_map_lem k ps h = ground (arith, add_params_lem k [] ps h)
