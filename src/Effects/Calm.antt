-- ===== src/Effects/Calm.antt =====
-- Runs in which no call fails.
use yunxiao_workflow_agent.Base.{ℕ, suc, String, ◌≡◌, ap, sym}
use yunxiao_workflow_agent.Runtime.{Time}
use yunxiao_workflow_agent.Effects.{
  World, Choice, exec, fine, Prog, ret, call, ◌>>=◌, Environment, later, run,
}

-- A choice of the environment in which nothing fails.
abbrev pub ease : String → Time → Choice
ease uuid time = record { uuid = uuid; time = time; fault = fine }

abbrev pub IsCalm : Environment → Type 0
IsCalm env = (n : ℕ) → (env n).fault ≡ fine

-- Whatever UUIDs and times are given, the program ends with a result and a world that satisfy `Q`, where
-- no call fails.
abbrev pub Calmly : {A : Type 0} → (A → World → Type 0) → Prog A → World → Type 0
Calmly Q (ret a) w = Q a w
Calmly Q (call c k) w =
    (uuid : String) (time : Time)
    → Calmly Q (k (exec c (ease uuid time) w).0) (exec c (ease uuid time) w).1

pub Calmly-run :
    {A : Type 0} (Q : A → World → Type 0) (p : Prog A) (env : Environment) (w : World)
    → IsCalm env
    → Calmly Q p w
    → Q (run p env w).0 (run p env w).1
unfolding run
Calmly-run Q (ret a) env w calm h = h
Calmly-run Q (call c k) env w calm h =
    Calmly-run Q (k (exec c (env 0) w).0) (later env) (exec c (env 0) w).1 (λ n. calm (suc n))
      (rw (same) at (h (env 0).uuid (env 0).time))
  where
    same : ease (env 0).uuid (env 0).time ≡ env 0
    same = ap (λ f. record (env 0) { fault = f }) (sym (calm 0))

pub Calmly-bind :
    {A B : Type 0} (P : A → World → Type 0) (Q : B → World → Type 0) (m : Prog A) (f : A → Prog B)
    (w : World)
    → Calmly P m w
    → ((a : A) (v : World) → P a v → Calmly Q (f a) v)
    → Calmly Q (m >>= f) w
Calmly-bind P Q (ret a) f w h go_on = go_on a w h
Calmly-bind P Q (call c k) f w h go_on = λ uuid time.
    Calmly-bind P Q (k (exec c (ease uuid time) w).0) f (exec c (ease uuid time) w).1 (h uuid time)
      go_on
