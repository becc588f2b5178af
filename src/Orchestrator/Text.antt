-- ===== src/Orchestrator/Text.antt =====
-- Slices of texts, as orchestrator-service/app/repositories.py takes them.
use Prim.Native.String.{[], ◌∷◌}
use yunxiao_workflow_agent.Base.{ℕ, zero, suc, String}

-- `s[:n]`
unfoldable pub first_chars : ℕ → String → String
first_chars zero s = []
first_chars (suc n) [] = []
first_chars (suc n) (c ∷ s) = c ∷ first_chars n s
