-- ===== src/Orchestrator/Registry/Topic.antt =====
-- Topic exchanges, as far as orchestrator-service/app/consumer.py binds queues to one.
use Prim.Native.String.{[], ◌∷◌}
use yunxiao_workflow_agent.Base.{
  String, ◌++◌, code, Bool, true, false, not, ◌≡◌, ◌||◌, ◌&&◌, Option, none, some, leb, nat_beq,
}
use yunxiao_workflow_agent.Base.Text.{cut_prefix}

-- A word of letters and underscores.
abbrev pub is_word : String → Bool
is_word [] = true
is_word (c ∷ s) = (leb 97 (code c) && leb (code c) 122 || nat_beq (code c) 95) && is_word s

abbrev pub has_dot : String → Bool
has_dot [] = false
has_dot (c ∷ s) = nat_beq (code c) 46 || has_dot s

-- The key is the word, a dot and one word more.
abbrev pub one_more : Option String → Bool
one_more none = false
one_more (some rest) = not (has_dot rest)

abbrev pub one_word : String → String → Bool
one_word word key = one_more (cut_prefix (word ++ ".") key)

-- What RabbitMQ documents of topic exchanges, for the pattern of a word, a dot and a star.
abbrev pub IsTopic : (String → String → Bool) → Type 0
IsTopic fits =
    (word key : String) → is_word word ≡ true → fits (word ++ ".*") key ≡ one_word word key
