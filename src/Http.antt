-- ===== src/Http.antt =====
-- What net/http and github.com/gin-gonic/gin hand to a handler, and what it answers.
use yunxiao_workflow_agent.Base.{ℕ, String, Option, none, some, List, [], ◌∷◌}
use yunxiao_workflow_agent.Base.Dict.{Dict, lookup}
use yunxiao_workflow_agent.Base.Result.{Result}
use yunxiao_workflow_agent.Runtime.{Bytes}
use yunxiao_workflow_agent.Repository.{Header}

-- `body` is what `io.ReadAll` returns; `event_type` is the query parameter of that name, or "".
pub record Request : Type 0 where
  pub header : Header
  pub event_type : String
  pub body : Result Bytes

abbrev first_value : Option (List String) → String
first_value none = ""
first_value (some []) = ""
first_value (some (v ∷ _)) = v

-- `Header.Get(key)`, for a key in canonical form
unfoldable pub get_header : String → Header → String
unfolding lookup
get_header key header = first_value (lookup key header)

-- `ctx.JSON(status, gin.H{...})`
pub record Response : Type 0 where
  pub status : ℕ
  pub body : Dict String
