-- ===== src/Orchestrator/Registry.antt =====
-- orchestrator-service/app/event_registry.py, and the bindings of orchestrator-service/app/consumer.py:
-- which queues get an event of some type, and which workflow handles it.
pub mod Topic
pub mod Handled
pub mod Delivery
use yunxiao_workflow_agent.Base.{String, Bool, Option, none, some, List, [], ◌∷◌, if◌then◌else◌}
use yunxiao_workflow_agent.Base.Dict.{Dict, lookup}

pub record EventRoute : Type 0 where
  pub workflow_type : String
  pub agent_type : String
  pub context_type : String

abbrev route : String → String → String → EventRoute
route workflow_type agent_type context_type = record {
  workflow_type = workflow_type;
  agent_type = agent_type;
  context_type = context_type;
}

abbrev work_item : EventRoute
work_item = route "work_item_sync" "work_item_agent" "work_item_sync"

abbrev pr_review : EventRoute
pr_review = route "pr_review" "pr_review_agent" "pr_review"

abbrev delivery : EventRoute
delivery = route "delivery_summary" "delivery_summary_agent" "delivery_summary"

abbrev repo : EventRoute
repo = route "repo_event" "repo_event_agent" "repo_event"

abbrev triage : EventRoute
triage = route "event_triage" "event_triage_agent" "event_triage"

abbrev status : EventRoute
status = route "pipeline_status" "pipeline_status_agent" "pipeline_status"

abbrev diagnosis : EventRoute
diagnosis = route "pipeline_diagnosis" "pipeline_diagnosis_agent" "pipeline_diagnosis"

-- `EVENT_ROUTES`
abbrev pub event_routes : Dict EventRoute
event_routes =
    ("work_item.created", work_item)
    ∷ ("work_item.updated", work_item)
    ∷ ("work_item.status_changed", work_item)
    ∷ ("work_item.assignee_changed", work_item)
    ∷ ("work_item.deleted", work_item)
    ∷ ("pr.created", pr_review)
    ∷ ("pr.updated", pr_review)
    ∷ ("pr.merged", delivery)
    ∷ ("pr.closed", triage)
    ∷ ("repo.pushed", repo)
    ∷ ("repo.tag_pushed", repo)
    ∷ ("repo.note_created", repo)
    ∷ ("pipeline.started", status)
    ∷ ("pipeline.failed", diagnosis)
    ∷ ("pipeline.succeeded", delivery)
    ∷ ("pipeline.finished", status)
    ∷ ("pipeline.canceled", status)
    ∷ ("pipeline.skipped", status)
    ∷ []

abbrev pub default_event_route : EventRoute
default_event_route = triage

abbrev or_default : Option EventRoute → EventRoute
or_default none = default_event_route
or_default (some r) = r

unfoldable pub resolve_event_route : String → EventRoute
unfolding lookup
resolve_event_route event_type = or_default (lookup event_type event_routes)

-- The queues and the routing keys of `declare_bindings`.
abbrev pub bindings : List (String × String)
bindings =
    ("orchestrator.pr", "pr.*")
    ∷ ("orchestrator.repo", "repo.*")
    ∷ ("orchestrator.pipeline", "pipeline.*")
    ∷ ("orchestrator.work_item", "work_item.*")
    ∷ []

-- The queues that get a message, where the exchange decides which routing key fits a pattern.
module _ (fits : String → String → Bool) where
  unfoldable pub bound : String → List (String × String) → List String
  bound key [] = []
  bound key ((queue, pattern) ∷ rest) =
      let others = bound key rest in if fits pattern key then queue ∷ others else others

  unfoldable pub queues : String → List String
  unfolding bound
  queues key = bound key bindings
