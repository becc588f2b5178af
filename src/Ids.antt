-- ===== src/Ids.antt =====
-- What the three adapters of ingress-service/internal/yunxiao share: identifiers drawn from
-- github.com/google/uuid, the hash in a dedup key, and the loop of `parseOptionalTime`.
use yunxiao_workflow_agent.Base.{
  String, ◌++◌, Option, none, some, List, [], ◌∷◌, if◌then◌else◌, Bool-cases, inl, inr,
}
use yunxiao_workflow_agent.Base.Text.{is_empty, hex_encode, take_text}
use yunxiao_workflow_agent.Runtime.{Runtime, Bytes, Time}
use yunxiao_workflow_agent.Effects.Laws.{Always}
use yunxiao_workflow_agent.Effects.{Call, Prog, ret, ◌>>=◌, ask}

-- `if traceID == "" { traceID = "trace_" + uuid.NewString() }`
unfoldable pub trace_or_new : String → Prog String
trace_or_new trace_id =
    if is_empty trace_id then (do u ← ask Call.new_uuid; ret ("trace_" ++ u)) else ret trace_id

-- `hex.EncodeToString(payloadHash[:])[:16]`
unfoldable pub payload_hash : Runtime → Bytes → String
payload_hash rt body = take_text 16 (hex_encode (rt.sha256 body))

-- The first layout that the value fits.
unfoldable pub parse_layouts : Runtime → List String → String → Option Time
parse_layouts rt [] value = none
parse_layouts rt (layout ∷ layouts) value = elim (rt.parse_time layout value) [
  | some t ↦ some t
  | none ↦ parse_layouts rt layouts value
]

abbrev pub rfc3339 : String
rfc3339 = "2006-01-02T15:04:05Z07:00"

-- The trace id is some text, whatever is drawn.
pub any_trace : (rt : Runtime) (trace : String) → Always (λ t. Unit) (trace_or_new trace)
unfolding trace_or_new
any_trace rt trace = elim (Bool-cases (is_empty trace)) [ inl e ↦ rw e (λ u. tt) | inr e ↦ rw e tt ]
