-- ===== src/Projex/Auth.antt =====
-- ingress-service/internal/yunxiao/projex/auth.go
use yunxiao_workflow_agent.Base.{String, Bool, true, ◌==◌, if◌then◌else◌}
use yunxiao_workflow_agent.Base.Text.{is_empty}
use yunxiao_workflow_agent.Http.{Request, get_header}

unfoldable pub verify_signature : Request → String → Bool
unfolding get_header
verify_signature request expected =
    if is_empty expected then true else get_header "X-Projex-Signature" request.header == expected
