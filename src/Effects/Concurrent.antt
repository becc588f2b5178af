-- ===== src/Effects/Concurrent.antt =====
-- Requests that are handled at the same time: their calls interleave in any order.
use yunxiao_workflow_agent.Base.{refl, List, [], ◌∷◌, ◌≡◌}
use mathlib.Core.List.{◌++◌}
use yunxiao_workflow_agent.Effects.{
  World, Call, Answer, Choice, exec, Prog, call, ret, run, Environment, later,
}

pub record System (A : Type 0) : Type 0 where
  pub world : World
  pub threads : List (Prog A)

-- A request arrives, with one of the programs `Handler`; or one thread makes its next call.
pub data Step {A : Type 0} (Handler : Prog A → Type 0) (s t : System A) : Type 0 where
  arrive : (p : Prog A) → Handler p → t ≡ record s { threads = p ∷ s.threads } → Step Handler s t
  advance :
      (before_it after_it : List (Prog A)) (c : Call) (k : Answer c → Prog A) (ch : Choice)
      → s.threads ≡ before_it ++ call c k ∷ after_it
      → t ≡ record {
        world = (exec c ch s.world).1;
        threads = before_it ++ k (exec c ch s.world).0 ∷ after_it;
      }
      → Step Handler s t

pub data Reach {A : Type 0} (Handler : Prog A → Type 0) (s : System A) : System A → Type 0 where
  here : Reach Handler s s
  next : {t u : System A} → Reach Handler s t → Step Handler t u → Reach Handler s u

-- What every call keeps holds in every state that is reached.
module _ {A : Type 0} (Handler : Prog A → Type 0) (I : World → Type 0)
    (keep : (c : Call) (ch : Choice) (w : World) → I w → I (exec c ch w).1) where
  Step-keeps : {s t : System A} → Step Handler s t → I s.world → I t.world
  Step-keeps (arrive p a e) h = rw e h
  Step-keeps {s} (advance l r c k ch e f) h = rw f (keep c ch s.world h)

  pub Reach-keeps : {s t : System A} → Reach Handler s t → I s.world → I t.world
  Reach-keeps here h = h
  Reach-keeps (next r st) h = Step-keeps st (Reach-keeps r h)

-- A request that is served with no other in between, from a state that is reached.
pub run-Reach :
    {A : Type 0} {Handler : Prog A → Type 0} {s : System A} {rest : List (Prog A)} (p : Prog A)
    (env : Environment) (w : World)
    → Reach Handler s (record { world = w; threads = p ∷ rest })
    → Reach Handler s (record { world = (run p env w).1; threads = ret (run p env w).0 ∷ rest })
unfolding run
run-Reach (ret a) env w r = r
run-Reach {rest = rest} (call c k) env w r =
    run-Reach (k (exec c (env 0) w).0) (later env) (exec c (env 0) w).1
      (next r (advance [] rest c k (env 0) refl refl))
