-- ===== src/Flow/Payload.antt =====
-- ingress-service/internal/yunxiao/flow/payload.go, and PayloadFromJSON of normalizer.go.
use yunxiao_workflow_agent.Base.{String, List, [], ◌∷◌}
use yunxiao_workflow_agent.Base.Result.{Result, ◌>>=◌}
use yunxiao_workflow_agent.Json.{Decoding, Fields, field, into_string, into_struct, into_slice}
use yunxiao_workflow_agent.Runtime.{Runtime, Bytes}

-- `Task`
pub record Task : Type 0 where
  pub pipeline_id : String
  pub pipeline_name : String
  pub stage_name : String
  pub task_name : String
  pub build_number : String
  pub status_code : String
  pub status_name : String
  pub pipeline_url : String
  pub message : String

-- The zero value of `Task`.
abbrev pub no_task : Task
no_task = record {
  pipeline_id = "";
  pipeline_name = "";
  stage_name = "";
  task_name = "";
  build_number = "";
  status_code = "";
  status_name = "";
  pipeline_url = "";
  message = "";
}

-- `Source`
pub record Source : Type 0 where
  pub repo : String
  pub branch : String
  pub commit_id : String
  pub previous_commit_id : String

-- The zero value of `Source`.
abbrev pub no_source : Source
no_source = record { repo = ""; branch = ""; commit_id = ""; previous_commit_id = "" }

-- `GlobalParam`
pub record GlobalParam : Type 0 where
  pub key : String
  pub value : String

-- The zero value of `GlobalParam`.
abbrev pub no_global_param : GlobalParam
no_global_param = record { key = ""; value = "" }

-- `WebhookPayload`
pub record WebhookPayload : Type 0 where
  pub event : String
  pub action : String
  pub task : Task
  pub sources : List Source
  pub global_params : List GlobalParam

-- The zero value of `WebhookPayload`.
abbrev pub no_webhook_payload : WebhookPayload
no_webhook_payload = record {
  event = "";
  action = "";
  task = no_task;
  sources = [];
  global_params = [];
}

-- Decoding by the tags of the structs.
module _ (d : Decoding) where
  abbrev task_fields : Fields Task
  task_fields =
      field "pipelineId" (λ r. r.pipeline_id) (λ x r. record r { pipeline_id = x }) (into_string d)
      ∷ field "pipelineName" (λ r. r.pipeline_name) (λ x r. record r { pipeline_name = x })
          (into_string d)
      ∷ field "stageName" (λ r. r.stage_name) (λ x r. record r { stage_name = x }) (into_string d)
      ∷ field "taskName" (λ r. r.task_name) (λ x r. record r { task_name = x }) (into_string d)
      ∷ field "buildNumber" (λ r. r.build_number) (λ x r. record r { build_number = x })
          (into_string d)
      ∷ field "statusCode" (λ r. r.status_code) (λ x r. record r { status_code = x })
          (into_string d)
      ∷ field "statusName" (λ r. r.status_name) (λ x r. record r { status_name = x })
          (into_string d)
      ∷ field "pipelineUrl" (λ r. r.pipeline_url) (λ x r. record r { pipeline_url = x })
          (into_string d)
      ∷ field "message" (λ r. r.message) (λ x r. record r { message = x }) (into_string d)
      ∷ []

  abbrev source_fields : Fields Source
  source_fields =
      field "repo" (λ r. r.repo) (λ x r. record r { repo = x }) (into_string d)
      ∷ field "branch" (λ r. r.branch) (λ x r. record r { branch = x }) (into_string d)
      ∷ field "commitId" (λ r. r.commit_id) (λ x r. record r { commit_id = x }) (into_string d)
      ∷ field "privousCommitId" (λ r. r.previous_commit_id)
          (λ x r. record r { previous_commit_id = x }) (into_string d)
      ∷ []

  abbrev global_param_fields : Fields GlobalParam
  global_param_fields =
      field "key" (λ r. r.key) (λ x r. record r { key = x }) (into_string d)
      ∷ field "value" (λ r. r.value) (λ x r. record r { value = x }) (into_string d)
      ∷ []

  abbrev webhook_payload_fields : Fields WebhookPayload
  webhook_payload_fields =
      field "event" (λ r. r.event) (λ x r. record r { event = x }) (into_string d)
      ∷ field "action" (λ r. r.action) (λ x r. record r { action = x }) (into_string d)
      ∷ field "task" (λ r. r.task) (λ x r. record r { task = x }) (into_struct d task_fields)
      ∷ field "sources" (λ r. r.sources) (λ x r. record r { sources = x })
          (into_slice d (into_struct d source_fields) no_source)
      ∷ field "globalParams" (λ r. r.global_params) (λ x r. record r { global_params = x })
          (into_slice d (into_struct d global_param_fields) no_global_param)
      ∷ []

-- `PayloadFromJSON`
unfoldable pub payload_from_json : Runtime → Bytes → Result WebhookPayload
unfolding into_string into_struct into_slice
payload_from_json rt body = rt.parse_json body >>= λ v.
    into_struct rt.decoding (webhook_payload_fields rt.decoding) v no_webhook_payload
