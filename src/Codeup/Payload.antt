-- ===== src/Codeup/Payload.antt =====
-- ingress-service/internal/yunxiao/codeup/payload.go, and PayloadFromJSON of normalizer.go.
use yunxiao_workflow_agent.Base.{String, Option, none, List, [], ◌∷◌}
use yunxiao_workflow_agent.Base.Int.{ℤ, pos}
use yunxiao_workflow_agent.Base.Result.{Result, ◌>>=◌}
use yunxiao_workflow_agent.Json.{
  Decoding, Fields, field, into_string, into_int64, into_struct, into_slice, into_pointer,
}
use yunxiao_workflow_agent.Runtime.{Runtime, Bytes}

-- `User`
pub record User : Type 0 where
  pub name : String
  pub username : String
  pub email : String

-- The zero value of `User`.
abbrev pub no_user : User
no_user = record { name = ""; username = ""; email = "" }

-- `Repository`
pub record Repository : Type 0 where
  pub name : String
  pub url : String
  pub git_http_url : String
  pub git_ssh_url : String
  pub homepage : String
  pub description : String

-- The zero value of `Repository`.
abbrev pub no_repository : Repository
no_repository = record {
  name = "";
  url = "";
  git_http_url = "";
  git_ssh_url = "";
  homepage = "";
  description = "";
}

-- `Commit`
pub record Commit : Type 0 where
  pub id : String
  pub message : String
  pub timestamp : String
  pub url : String

-- The zero value of `Commit`.
abbrev pub no_commit : Commit
no_commit = record { id = ""; message = ""; timestamp = ""; url = "" }

-- `MergeRequestAttributes`
pub record MergeRequestAttributes : Type 0 where
  pub id : ℤ
  pub iid : ℤ
  pub local_id : ℤ
  pub biz_id : String
  pub title : String
  pub description : String
  pub action : String
  pub state : String
  pub source_branch : String
  pub target_branch : String
  pub source_project_id : ℤ
  pub target_project_id : ℤ
  pub last_commit : Option Commit
  pub created_at : String
  pub updated_at : String

-- The zero value of `MergeRequestAttributes`.
abbrev pub no_merge_request_attributes : MergeRequestAttributes
no_merge_request_attributes = record {
  id = pos 0;
  iid = pos 0;
  local_id = pos 0;
  biz_id = "";
  title = "";
  description = "";
  action = "";
  state = "";
  source_branch = "";
  target_branch = "";
  source_project_id = pos 0;
  target_project_id = pos 0;
  last_commit = none;
  created_at = "";
  updated_at = "";
}

-- `WebhookPayload`
pub record WebhookPayload : Type 0 where
  pub object_kind : String
  pub event_name : String
  pub project_id : ℤ
  pub ref : String
  pub before : String
  pub after : String
  pub checkout_sha : String
  pub user : User
  pub user_name : String
  pub user_username : String
  pub user_email : String
  pub repository : Repository
  pub object_attributes : MergeRequestAttributes
  pub merge_request : Option MergeRequestAttributes
  pub commit : Option Commit
  pub commits : List Commit
  pub total_commits : ℤ

-- The zero value of `WebhookPayload`.
abbrev pub no_webhook_payload : WebhookPayload
no_webhook_payload = record {
  object_kind = "";
  event_name = "";
  project_id = pos 0;
  ref = "";
  before = "";
  after = "";
  checkout_sha = "";
  user = no_user;
  user_name = "";
  user_username = "";
  user_email = "";
  repository = no_repository;
  object_attributes = no_merge_request_attributes;
  merge_request = none;
  commit = none;
  commits = [];
  total_commits = pos 0;
}

-- Decoding by the tags of the structs.
module _ (d : Decoding) where
  abbrev user_fields : Fields User
  user_fields =
      field "name" (λ r. r.name) (λ x r. record r { name = x }) (into_string d)
      ∷ field "username" (λ r. r.username) (λ x r. record r { username = x }) (into_string d)
      ∷ field "email" (λ r. r.email) (λ x r. record r { email = x }) (into_string d)
      ∷ []

  abbrev repository_fields : Fields Repository
  repository_fields =
      field "name" (λ r. r.name) (λ x r. record r { name = x }) (into_string d)
      ∷ field "url" (λ r. r.url) (λ x r. record r { url = x }) (into_string d)
      ∷ field "git_http_url" (λ r. r.git_http_url) (λ x r. record r { git_http_url = x })
          (into_string d)
      ∷ field "git_ssh_url" (λ r. r.git_ssh_url) (λ x r. record r { git_ssh_url = x })
          (into_string d)
      ∷ field "homepage" (λ r. r.homepage) (λ x r. record r { homepage = x }) (into_string d)
      ∷ field "description" (λ r. r.description) (λ x r. record r { description = x })
          (into_string d)
      ∷ []

  abbrev commit_fields : Fields Commit
  commit_fields =
      field "id" (λ r. r.id) (λ x r. record r { id = x }) (into_string d)
      ∷ field "message" (λ r. r.message) (λ x r. record r { message = x }) (into_string d)
      ∷ field "timestamp" (λ r. r.timestamp) (λ x r. record r { timestamp = x }) (into_string d)
      ∷ field "url" (λ r. r.url) (λ x r. record r { url = x }) (into_string d)
      ∷ []

  abbrev merge_request_attributes_fields : Fields MergeRequestAttributes
  merge_request_attributes_fields =
      field "id" (λ r. r.id) (λ x r. record r { id = x }) (into_int64 d)
      ∷ field "iid" (λ r. r.iid) (λ x r. record r { iid = x }) (into_int64 d)
      ∷ field "local_id" (λ r. r.local_id) (λ x r. record r { local_id = x }) (into_int64 d)
      ∷ field "biz_id" (λ r. r.biz_id) (λ x r. record r { biz_id = x }) (into_string d)
      ∷ field "title" (λ r. r.title) (λ x r. record r { title = x }) (into_string d)
      ∷ field "description" (λ r. r.description) (λ x r. record r { description = x })
          (into_string d)
      ∷ field "action" (λ r. r.action) (λ x r. record r { action = x }) (into_string d)
      ∷ field "state" (λ r. r.state) (λ x r. record r { state = x }) (into_string d)
      ∷ field "source_branch" (λ r. r.source_branch) (λ x r. record r { source_branch = x })
          (into_string d)
      ∷ field "target_branch" (λ r. r.target_branch) (λ x r. record r { target_branch = x })
          (into_string d)
      ∷ field "source_project_id" (λ r. r.source_project_id)
          (λ x r. record r { source_project_id = x }) (into_int64 d)
      ∷ field "target_project_id" (λ r. r.target_project_id)
          (λ x r. record r { target_project_id = x }) (into_int64 d)
      ∷ field "last_commit" (λ r. r.last_commit) (λ x r. record r { last_commit = x })
          (into_pointer d (into_struct d commit_fields) no_commit)
      ∷ field "created_at" (λ r. r.created_at) (λ x r. record r { created_at = x }) (into_string d)
      ∷ field "updated_at" (λ r. r.updated_at) (λ x r. record r { updated_at = x }) (into_string d)
      ∷ []

  abbrev webhook_payload_fields : Fields WebhookPayload
  webhook_payload_fields =
      field "object_kind" (λ r. r.object_kind) (λ x r. record r { object_kind = x }) (into_string d)
      ∷ field "event_name" (λ r. r.event_name) (λ x r. record r { event_name = x }) (into_string d)
      ∷ field "project_id" (λ r. r.project_id) (λ x r. record r { project_id = x }) (into_int64 d)
      ∷ field "ref" (λ r. r.ref) (λ x r. record r { ref = x }) (into_string d)
      ∷ field "before" (λ r. r.before) (λ x r. record r { before = x }) (into_string d)
      ∷ field "after" (λ r. r.after) (λ x r. record r { after = x }) (into_string d)
      ∷ field "checkout_sha" (λ r. r.checkout_sha) (λ x r. record r { checkout_sha = x })
          (into_string d)
      ∷ field "user" (λ r. r.user) (λ x r. record r { user = x }) (into_struct d user_fields)
      ∷ field "user_name" (λ r. r.user_name) (λ x r. record r { user_name = x }) (into_string d)
      ∷ field "user_username" (λ r. r.user_username) (λ x r. record r { user_username = x })
          (into_string d)
      ∷ field "user_email" (λ r. r.user_email) (λ x r. record r { user_email = x }) (into_string d)
      ∷ field "repository" (λ r. r.repository) (λ x r. record r { repository = x })
          (into_struct d repository_fields)
      ∷ field "object_attributes" (λ r. r.object_attributes)
          (λ x r. record r { object_attributes = x })
          (into_struct d merge_request_attributes_fields)
      ∷ field "merge_request" (λ r. r.merge_request) (λ x r. record r { merge_request = x })
          (into_pointer d (into_struct d merge_request_attributes_fields)
            no_merge_request_attributes)
      ∷ field "commit" (λ r. r.commit) (λ x r. record r { commit = x })
          (into_pointer d (into_struct d commit_fields) no_commit)
      ∷ field "commits" (λ r. r.commits) (λ x r. record r { commits = x })
          (into_slice d (into_struct d commit_fields) no_commit)
      ∷ field "total_commits_count" (λ r. r.total_commits) (λ x r. record r { total_commits = x })
          (into_int64 d)
      ∷ []

-- `PayloadFromJSON`
unfoldable pub payload_from_json : Runtime → Bytes → Result WebhookPayload
unfolding into_string into_int64 into_struct into_slice into_pointer
payload_from_json rt body = rt.parse_json body >>= λ v.
    into_struct rt.decoding (webhook_payload_fields rt.decoding) v no_webhook_payload
