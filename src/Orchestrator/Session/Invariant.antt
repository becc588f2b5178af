-- ===== src/Orchestrator/Session/Invariant.antt =====
-- Invariants of the tables, kept by the functions of orchestrator-service/app whatever fails.
use yunxiao_workflow_agent.Base.{Bool, true, false, if◌then◌else◌}
use yunxiao_workflow_agent.Effects.{Fault, fine, before, after, later}
use yunxiao_workflow_agent.Orchestrator.Session.{
  Session, Outcome, value, raise, Exc, Py, next, rescue, executed, answered, execute, undone,
  commit, commit_at, rollback, rolled_back, connected, postgres_connection, roll_back_and_raise,
  commit_and_return, return, settle, settled_at, Settlement,
}

module _ {T : Type 0} (J : T → Type 0) where
  abbrev pub Holds : Session T → Type 0
  Holds s = J s.committed × J s.working

  -- The invariant holds, and where a value is returned it has this property with the open transaction.
  abbrev pub Ensures : {A : Type 0} → (A → T → Type 0) → Outcome A × Session T → Type 0
  Ensures Q (value a, s) = Holds s × Q a s.working
  Ensures Q (raise e, s) = Holds s

  abbrev pub Fine : {A : Type 0} → A → T → Type 0
  Fine a t = Unit

  pub next-Ensures :
      {A B : Type 0} (P : A → T → Type 0) (Q : B → T → Type 0) (f : A → Py T B)
      (r : Outcome A × Session T)
      → Ensures P r
      → ((a : A) (s : Session T) → Holds s → P a s.working → Ensures Q (f a s))
      → Ensures Q (next f r)
  next-Ensures P Q f (value a, s) (h, p) go_on = go_on a s h p
  next-Ensures P Q f (raise e, s) h go_on = h

  pub rescue-Ensures :
      {A : Type 0} (Q : A → T → Type 0) (handler : Exc → Py T A) (r : Outcome A × Session T)
      → Ensures Q r
      → ((e : Exc) (s : Session T) → Holds s → Ensures Q (handler e s))
      → Ensures Q (rescue handler r)
  rescue-Ensures Q handler (value a, s) h go_on = h
  rescue-Ensures Q handler (raise e, s) h go_on = go_on e s h

  -- What a statement answers.
  abbrev pub Answers : {A : Type 0} → (A → T → Type 0) → Outcome A × T → Type 0
  Answers Q (value a, t) = J t × Q a t
  Answers Q (raise e, t) = Unit

  answered-Ensures :
      {A : Type 0} (Q : A → T → Type 0) (s : Session T) (r : Outcome A × T)
      → Holds s
      → Answers Q r
      → Ensures Q (answered s r)
  answered-Ensures Q s (value a, t) h (j, q) = ((h.0, j), q)
  answered-Ensures Q s (raise e, t) h q = h

  if-Ensures :
      {A : Type 0} (Q : A → T → Type 0) (b : Bool) (x y : Outcome A × Session T)
      → Ensures Q x
      → Ensures Q y
      → Ensures Q (if b then x else y)
  if-Ensures Q true x y p q = p
  if-Ensures Q false x y p q = q

  executed-Ensures :
      {A : Type 0} (Q : A → T → Type 0) (fault : Fault) (statement : T → Outcome A × T)
      (s : Session T)
      → Holds s
      → Answers Q (statement s.working)
      → Ensures Q (executed fault statement s)
  executed-Ensures Q fine statement s h q =
      if-Ensures Q s.aborted _ _ h (answered-Ensures Q s (statement s.working) h q)
  executed-Ensures Q (before m) statement s h q = h
  executed-Ensures Q (after m) statement s h q = h

  pub execute-Ensures :
      {A : Type 0} (Q : A → T → Type 0) (statement : T → Outcome A × T) (s : Session T)
      → Holds s
      → Answers Q (statement s.working)
      → Ensures Q (execute statement s)
  execute-Ensures Q statement s h q =
      executed-Ensures Q (s.choices 0).fault statement (record s { choices = later s.choices }) h q

  kept_if :
      (b : Bool) (s : Session T)
      → Holds s
      → Holds (if b then undone s else record s { committed = s.working })
  kept_if true s (p, q) = (p, p)
  kept_if false s (p, q) = (q, q)

  commit_at-Ensures : (fault : Fault) (s : Session T) → Holds s → Ensures Fine (commit_at fault s)
  commit_at-Ensures fine s h = (kept_if s.aborted s h, tt)
  commit_at-Ensures (before m) s h = h
  commit_at-Ensures (after m) s h = kept_if s.aborted s h

  rolled_back-Ensures :
      (fault : Fault) (s : Session T) → Holds s → Ensures Fine (rolled_back fault s)
  rolled_back-Ensures fine s (p, q) = ((p, p), tt)
  rolled_back-Ensures (before m) s (p, q) = (p, p)
  rolled_back-Ensures (after m) s (p, q) = (p, p)

  pub rollback-Ensures : (s : Session T) → Holds s → Ensures Fine (rollback s)
  rollback-Ensures s h =
      rolled_back-Ensures (s.choices 0).fault (record s { choices = later s.choices }) h

  settled_at-Ensures :
      (fault : Fault) (a : Settlement) (s : Session T)
      → Holds s
      → Ensures Fine (settled_at fault a s)
  settled_at-Ensures fine a s h = (h, tt)
  settled_at-Ensures (before m) a s h = h
  settled_at-Ensures (after m) a s h = h

  pub settle-Ensures : (a : Settlement) (s : Session T) → Holds s → Ensures Fine (settle a s)
  settle-Ensures a s h =
      settled_at-Ensures (s.broker 0).fault a (record s { broker = later s.broker }) h

  connected-Ensures : (fault : Fault) (s : Session T) → Holds s → Ensures Fine (connected fault s)
  connected-Ensures fine s (p, q) = ((p, p), tt)
  connected-Ensures (before m) s h = h
  connected-Ensures (after m) s h = h

  pub postgres_connection-Ensures :
      {A : Type 0} (body : Py T A) (s : Session T)
      → Holds s
      → ((t : Session T) → Holds t → Ensures Fine (body t))
      → Ensures Fine (postgres_connection body s)
  unfolding postgres_connection
  postgres_connection-Ensures body s h keeps =
      next-Ensures Fine Fine _
        (connected (s.choices 0).fault (record s { choices = later s.choices }))
        (connected-Ensures (s.choices 0).fault (record s { choices = later s.choices }) h)
        (λ _ t k _.
          rescue-Ensures Fine roll_back_and_raise (next commit_and_return (body t))
            (next-Ensures Fine Fine commit_and_return (body t) (keeps t k) (λ a u l _.
              next-Ensures Fine Fine (λ _. return a) (commit u)
                (commit_at-Ensures (u.choices 0).fault (record u { choices = later u.choices }) l)
                (λ _ v m _. (m, tt))))
            (λ e u l.
              next-Ensures Fine Fine (λ _ v. (raise e, v)) (rollback u) (rollback-Ensures u l)
                (λ _ v m _. m)))
