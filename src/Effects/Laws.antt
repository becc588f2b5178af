-- ===== src/Effects/Laws.antt =====
-- What holds of a program whatever its calls are answered.
use yunxiao_workflow_agent.Effects.{
  World, Answer, Choice, exec, Prog, ret, call, ◌>>=◌, Environment, later, run,
}

-- Every result of the program satisfies `P`: programs are finite, so each run has a result.
abbrev pub Always : {A : Type 0} → (A → Type 0) → Prog A → Type 0
Always P (ret a) = P a
Always P (call c k) = (r : Answer c) → Always P (k r)

pub Always-run :
    {A : Type 0} (P : A → Type 0) (p : Prog A) (env : Environment) (w : World)
    → Always P p
    → P (run p env w).0
unfolding run
Always-run P (ret a) env w h = h
Always-run P (call c k) env w h =
    let (r, w') = exec c (env 0) w in Always-run P (k r) (later env) w' (h r)

pub Always-bind :
    {A B : Type 0} (P : A → Type 0) (Q : B → Type 0) (m : Prog A) (f : A → Prog B)
    → Always P m
    → ((a : A) → P a → Always Q (f a))
    → Always Q (m >>= f)
Always-bind P Q (ret a) f h k = k a h
Always-bind P Q (call c g) f h k = λ r. Always-bind P Q (g r) f (h r) k

pub Always-weaken :
    {A : Type 0} (P Q : A → Type 0) (p : Prog A) → ((a : A) → P a → Q a) → Always P p → Always Q p
Always-weaken P Q (ret a) w h = w a h
Always-weaken P Q (call c k) w h = λ r. Always-weaken P Q (k r) w (h r)

-- Whatever the environment decides, the program ends with a result and a world that satisfy `Q`.
abbrev pub Ends : {A : Type 0} → (A → World → Type 0) → Prog A → World → Type 0
Ends Q (ret a) w = Q a w
Ends Q (call c k) w = (ch : Choice) → Ends Q (k (exec c ch w).0) (exec c ch w).1

pub Ends-run :
    {A : Type 0} (Q : A → World → Type 0) (p : Prog A) (env : Environment) (w : World)
    → Ends Q p w
    → Q (run p env w).0 (run p env w).1
unfolding run
Ends-run Q (ret a) env w h = h
Ends-run Q (call c k) env w h =
    Ends-run Q (k (exec c (env 0) w).0) (later env) (exec c (env 0) w).1 (h (env 0))
