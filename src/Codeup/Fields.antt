-- ===== src/Codeup/Fields.antt =====
-- ingress-service/internal/yunxiao/codeup/normalizer.go: the fields that the events share.
use yunxiao_workflow_agent.Base.{String, ◌++◌, Option, none, some, List, [], ◌∷◌, if◌then◌else◌}
use yunxiao_workflow_agent.Base.Int.{ℤ, is_zero, is_positive}
use yunxiao_workflow_agent.Base.Dict.{Dict, insert}
use yunxiao_workflow_agent.Base.Text.{is_empty, first_non_empty, trim_prefix, format_int}
use yunxiao_workflow_agent.Base.Result.{Sentinel, Error, wrapped}
use yunxiao_workflow_agent.Runtime.{Runtime, Time}
use yunxiao_workflow_agent.Model.{Ref}
use yunxiao_workflow_agent.Ids.{parse_layouts, rfc3339}
use yunxiao_workflow_agent.Codeup.Payload.{
  WebhookPayload, MergeRequestAttributes, Commit, no_commit, Repository,
}

unfoldable pub id_string : ℤ → String
unfolding format_int
id_string value = if is_zero value then "" else format_int value

unfoldable pub merge_request_id : MergeRequestAttributes → String
unfolding format_int
merge_request_id mr =
    if is_empty mr.biz_id
    then if is_positive mr.iid
      then format_int mr.iid
      else if is_positive mr.local_id
      then format_int mr.local_id
      else if is_positive mr.id
      then format_int mr.id
      else ""
    else mr.biz_id

unfoldable pub ref_name : String → String
unfolding trim_prefix
ref_name ref = trim_prefix (trim_prefix ref "refs/heads/") "refs/tags/"

-- `payload.Commits[len(payload.Commits)-1]`, or the zero commit
unfoldable pub last_of : List Commit → Commit
last_of [] = no_commit
last_of (c ∷ []) = c
last_of (c ∷ d ∷ cs) = last_of (d ∷ cs)

abbrev commit_or_last : Option Commit → List Commit → Commit
commit_or_last none commits = last_of commits
commit_or_last (some c) commits = c

unfoldable pub last_commit : WebhookPayload → Commit
unfolding last_of
last_commit payload = commit_or_last payload.commit payload.commits

unfoldable pub payload_user_name : WebhookPayload → String
unfolding first_non_empty
payload_user_name payload =
    first_non_empty
      (payload.user.username ∷ payload.user.name ∷ payload.user_username ∷ payload.user_name ∷ [])

abbrev pub repository_url : Repository → String
repository_url r = first_non_empty (r.git_http_url ∷ r.url ∷ r.homepage ∷ [])

abbrev pub ignored_event : String → Error
ignored_event detail = wrapped Sentinel.codeup_ignored ("ignored codeup event" ++ detail)

-- `"yunxiao.codeup:%s:%d:%s:%s"`
unfoldable pub codeup_key : String → ℤ → String → String → String
unfolding format_int
codeup_key event_type project_id subject_id last =
    "yunxiao.codeup:"
    ++ event_type
    ++ ":"
    ++ format_int project_id
    ++ ":"
    ++ subject_id
    ++ ":"
    ++ last

-- The fields that an optional commit adds.
abbrev pub add_commit : Option Commit → Dict Ref → Dict Ref
add_commit none refs = refs
add_commit (some c) refs = insert "commit_sha" (Ref.text c.id) refs

abbrev pub add_merge_request : Option MergeRequestAttributes → Dict Ref → Dict Ref
add_merge_request none refs = refs
add_merge_request (some mr) refs =
    insert "merge_request_title" (Ref.text mr.title)
      (insert "merge_request_id" (Ref.text (merge_request_id mr)) refs)

module _ (rt : Runtime) where
  unfoldable pub parse_optional_time : String → Option Time
  unfolding parse_layouts
  parse_optional_time value =
      if is_empty value
      then none
      else parse_layouts rt (rfc3339 ∷ "2006-01-02 15:04:05 MST" ∷ "2006-01-02 15:04:05" ∷ []) value
