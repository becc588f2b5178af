-- ===== src/Orchestrator/Registry/Handled.antt =====
-- The event types that the routes and the bindings of orchestrator-service/app/event_registry.py and
-- consumer.py know.
use yunxiao_workflow_agent.Base.{
  String, Bool, true, ◌≡◌, refl, some, List, [], ◌∷◌, if◌then◌else◌, All, Bool-cases, inl, inr,
  eq_iff, ◌==◌, false, none,
}
use yunxiao_workflow_agent.Base.Dict.{Dict, lookup}
use yunxiao_workflow_agent.Base.Text.{cut_prefix, one_of, trim_space}
use yunxiao_workflow_agent.Flow
use yunxiao_workflow_agent.Codeup
use yunxiao_workflow_agent.Projex
use yunxiao_workflow_agent.Orchestrator.Registry.{event_routes, queues, bound, EventRoute}
use yunxiao_workflow_agent.Orchestrator.Registry.Topic.{IsTopic, one_word}

-- What holds of the words of a list holds of each one.
pub one_of-All :
    (P : String → Type 0) (words : List String) (s : String)
    → All P words
    → one_of words s ≡ true
    → P s
one_of-All P [] s h listed = absurd (cc listed)
one_of-All P (w ∷ words) s (p, h) listed = elim (Bool-cases (s == w)) [
  | inl here ↦ rw ((eq_iff s w).0 here) p
  | inr other ↦ one_of-All P words s h (rw other at listed)
]

pub lookup-padded :
    (t : String) (routes : Dict EventRoute)
    → All (λ entry. trim_space entry.0 ≡ entry.0) routes
    → (trim_space t == t) ≡ false
    → lookup t routes ≡ none
unfolding lookup
lookup-padded t [] h padded = refl
lookup-padded t (entry ∷ routes) (trimmed, h) padded = elim (Bool-cases (entry.0 == t)) [
  | inl same ↦
      absurd (cc (padded, (eq_iff (trim_space t) t).1 (rw ((eq_iff entry.0 t).0 same) at trimmed)))
  | inr other ↦ rw other (lookup-padded t routes h padded)
]

pub routes_trimmed : All (λ entry. trim_space entry.0 ≡ entry.0) event_routes
unfolding trim_space
routes_trimmed = (
  refl,
  (
    refl,
    (
      refl,
      (
        refl,
        (
          refl,
          (
            refl,
            (
              refl,
              (
                refl,
                (refl, (refl, (refl, (refl, (refl, (refl, (refl, (refl, (refl, (refl, tt)))))))))),
              ),
            ),
          ),
        ),
      ),
    ),
  ),
)

-- The queues with these words.
abbrev words_of : String → List (String × String) → List String
words_of key [] = []
words_of key ((queue, word) ∷ rest) =
    let others = words_of key rest in if one_word word key then queue ∷ others else others

abbrev HasRoute : String → Type 0
HasRoute t = (r : EventRoute) × (lookup t event_routes ≡ some r)

module _ (fits : String → String → Bool) where
  -- One queue gets the events of this type, and they have a route of their own.
  abbrev pub Handled : String → String → Type 0
  Handled queue t = (queues fits t ≡ queue ∷ []) × HasRoute t

  queues-fits :
      (key : String)
      → IsTopic fits
      → queues fits key
        ≡ words_of key (
            ("orchestrator.pr", "pr")
            ∷ ("orchestrator.repo", "repo")
            ∷ ("orchestrator.pipeline", "pipeline")
            ∷ ("orchestrator.work_item", "work_item")
            ∷ [])
  unfolding queues bound
  queues-fits key topic =
      rw
        (
          topic "pr" key refl,
          topic "repo" key refl,
          topic "pipeline" key refl,
          topic "work_item" key refl,
        )
        refl

  pub pipeline-Handled :
      IsTopic fits → All (Handled "orchestrator.pipeline") Flow.Outcome.pipeline_types
  unfolding lookup cut_prefix
  pipeline-Handled topic = (
    (queues-fits "pipeline.failed" topic, (_, refl)),
    (
      (queues-fits "pipeline.succeeded" topic, (_, refl)),
      (
        (queues-fits "pipeline.finished" topic, (_, refl)),
        (
          (queues-fits "pipeline.canceled" topic, (_, refl)),
          (
            (queues-fits "pipeline.started" topic, (_, refl)),
            ((queues-fits "pipeline.skipped" topic, (_, refl)), tt),
          ),
        ),
      ),
    ),
  )

  pub work_item-Handled :
      IsTopic fits → All (Handled "orchestrator.work_item") Projex.Outcome.work_item_types
  unfolding lookup cut_prefix
  work_item-Handled topic = (
    (queues-fits "work_item.created" topic, (_, refl)),
    (
      (queues-fits "work_item.updated" topic, (_, refl)),
      (
        (queues-fits "work_item.status_changed" topic, (_, refl)),
        (
          (queues-fits "work_item.assignee_changed" topic, (_, refl)),
          ((queues-fits "work_item.deleted" topic, (_, refl)), tt),
        ),
      ),
    ),
  )

  pub pr-Handled : IsTopic fits → All (Handled "orchestrator.pr") Codeup.Outcome.merge_request_types
  unfolding lookup cut_prefix
  pr-Handled topic = (
    (queues-fits "pr.created" topic, (_, refl)),
    (
      (queues-fits "pr.merged" topic, (_, refl)),
      (
        (queues-fits "pr.closed" topic, (_, refl)),
        ((queues-fits "pr.updated" topic, (_, refl)), tt),
      ),
    ),
  )

  pub repo-Handled :
      IsTopic fits
      → All
          (Handled "orchestrator.repo")
          ("repo.pushed" ∷ "repo.tag_pushed" ∷ "repo.note_created" ∷ [])
  unfolding lookup cut_prefix
  repo-Handled topic = (
    (queues-fits "repo.pushed" topic, (_, refl)),
    (
      (queues-fits "repo.tag_pushed" topic, (_, refl)),
      ((queues-fits "repo.note_created" topic, (_, refl)), tt),
    ),
  )
