-- ===== src/Effects/Draws.antt =====
-- Programs that draw UUIDs, and do nothing else to the world.
use yunxiao_workflow_agent.Base.{Bool, true, false, if◌then◌else◌}
use yunxiao_workflow_agent.Effects.{Call, Answer, Prog, ret, call, ◌>>=◌}

abbrev pub Draws : {A : Type 0} → Prog A → Type 0
Draws (ret a) = Unit
Draws (call Call.new_uuid k) = (u : Answer Call.new_uuid) → Draws (k u)
Draws (call c k) = ⊥

pub Draws-bind :
    {A B : Type 0} (m : Prog A) (f : A → Prog B)
    → Draws m
    → ((a : A) → Draws (f a))
    → Draws (m >>= f)
Draws-bind (ret a) f h k = k a
Draws-bind (call Call.new_uuid g) f h k = λ u. Draws-bind (g u) f (h u) k
Draws-bind (call c g) f h k = absurd h

pub Draws-if :
    {A : Type 0} (b : Bool) (m n : Prog A) → Draws m → Draws n → Draws (if b then m else n)
Draws-if true m n h k = h
Draws-if false m n h k = k
