-- ===== src/Runtime.antt =====
-- What the program takes from Go's runtime libraries and does not implement.
use yunxiao_workflow_agent.Base.{ℕ, Char, String, Option, List}
use yunxiao_workflow_agent.Base.Result.{Result}
use yunxiao_workflow_agent.Json.{Json, Decoding}

-- `[]byte`
abbrev pub Bytes : Type 0
Bytes = List ℕ

-- `time.Time`: nanoseconds since a fixed instant before all that are met, and the zone's name.
pub record Time : Type 0 where
  pub instant : ℕ
  pub zone : String

-- `t.UTC()`
abbrev pub utc : Time → Time
utc t = record t { zone = "UTC" }

pub record Runtime : Type 0 where
  -- the tables of `unicode.ToLower` and `unicode.ToUpper` beyond ASCII
  pub lower_rune : Char → Char
  pub upper_rune : Char → Char
  -- `%q`
  pub quote : String → String
  -- `sha256.Sum256`
  pub sha256 : Bytes → List ℕ
  -- `time.Parse(layout, value)`
  pub parse_time : String → String → Option Time
  -- the text that `time.Time` marshals to
  pub format_time : Time → String
  -- the syntax of `json.Unmarshal` and `json.Valid`
  pub parse_json : Bytes → Result Json
  -- `json.Marshal`
  pub marshal : Json → Result String
  pub decoding : Decoding
