-- ===== src/Orchestrator/Session/Committed.antt =====
-- Properties of the committed tables alone: the open transaction of orchestrator-service/app/db.py may break them
-- on its way to the commit.
use yunxiao_workflow_agent.Base.{Bool, true, false, if◌then◌else◌}
use yunxiao_workflow_agent.Effects.{Fault, fine, before, after, later}
use yunxiao_workflow_agent.Orchestrator.Session.{
  Session, Outcome, value, raise, Exc, Py, next, rescue, executed, answered, execute, undone,
  commit, commit_at, rollback, rolled_back, connected, postgres_connection, roll_back_and_raise,
  commit_and_return, return, settle, settled_at, Settlement, raising,
}

abbrev pub Anything : {T A : Type 0} → A → T → Type 0
Anything a t = Unit

module _ {T : Type 0} (J : T → Type 0) where
  -- The committed tables have the property, and where a value is returned the open transaction has this
  -- one.
  abbrev pub Leaves : {A : Type 0} → (A → T → Type 0) → Outcome A × Session T → Type 0
  Leaves Q (value a, s) = J s.committed × Q a s.working
  Leaves Q (raise e, s) = J s.committed

  pub next-Leaves :
      {A B : Type 0} (P : A → T → Type 0) (Q : B → T → Type 0) (f : A → Py T B)
      (r : Outcome A × Session T)
      → Leaves P r
      → ((a : A) (s : Session T) → J s.committed → P a s.working → Leaves Q (f a s))
      → Leaves Q (next f r)
  next-Leaves P Q f (value a, s) (h, p) go_on = go_on a s h p
  next-Leaves P Q f (raise e, s) h go_on = h

  pub rescue-Leaves :
      {A : Type 0} (Q : A → T → Type 0) (handler : Exc → Py T A) (r : Outcome A × Session T)
      → Leaves Q r
      → ((e : Exc) (s : Session T) → J s.committed → Leaves Q (handler e s))
      → Leaves Q (rescue handler r)
  rescue-Leaves Q handler (value a, s) h go_on = h
  rescue-Leaves Q handler (raise e, s) h go_on = go_on e s h

  -- What a statement gives.
  abbrev pub Gives : {A : Type 0} → (A → T → Type 0) → Outcome A × T → Type 0
  Gives Q (value a, t) = Q a t
  Gives Q (raise e, t) = Unit

  answered-Leaves :
      {A : Type 0} (Q : A → T → Type 0) (s : Session T) (r : Outcome A × T)
      → J s.committed
      → Gives Q r
      → Leaves Q (answered s r)
  answered-Leaves Q s (value a, t) h q = (h, q)
  answered-Leaves Q s (raise e, t) h q = h

  if-Leaves :
      {A : Type 0} (Q : A → T → Type 0) (b : Bool) (x y : Outcome A × Session T)
      → Leaves Q x
      → Leaves Q y
      → Leaves Q (if b then x else y)
  if-Leaves Q true x y p q = p
  if-Leaves Q false x y p q = q

  executed-Leaves :
      {A : Type 0} (Q : A → T → Type 0) (fault : Fault) (statement : T → Outcome A × T)
      (s : Session T)
      → J s.committed
      → Gives Q (statement s.working)
      → Leaves Q (executed fault statement s)
  executed-Leaves Q fine statement s h q =
      if-Leaves Q s.aborted _ _ h (answered-Leaves Q s (statement s.working) h q)
  executed-Leaves Q (before m) statement s h q = h
  executed-Leaves Q (after m) statement s h q = h

  pub execute-Leaves :
      {A : Type 0} (Q : A → T → Type 0) (statement : T → Outcome A × T) (s : Session T)
      → J s.committed
      → Gives Q (statement s.working)
      → Leaves Q (execute statement s)
  execute-Leaves Q statement s h q =
      executed-Leaves Q (s.choices 0).fault statement (record s { choices = later s.choices }) h q

  kept_if-J :
      (b : Bool) (s : Session T)
      → J s.committed
      → J s.working
      → J (if b then undone s else record s { committed = s.working }).committed
  kept_if-J true s p q = p
  kept_if-J false s p q = q

  commit_at-Leaves :
      (fault : Fault) (s : Session T)
      → J s.committed
      → J s.working
      → Leaves Anything (commit_at fault s)
  commit_at-Leaves fine s p q = (kept_if-J s.aborted s p q, tt)
  commit_at-Leaves (before m) s p q = p
  commit_at-Leaves (after m) s p q = kept_if-J s.aborted s p q

  rolled_back-Leaves :
      (fault : Fault) (s : Session T) → J s.committed → Leaves (λ _. J) (rolled_back fault s)
  rolled_back-Leaves fine s h = (h, h)
  rolled_back-Leaves (before m) s h = h
  rolled_back-Leaves (after m) s h = h

  pub rollback-Leaves : (s : Session T) → J s.committed → Leaves (λ _. J) (rollback s)
  rollback-Leaves s h =
      rolled_back-Leaves (s.choices 0).fault (record s { choices = later s.choices }) h

  connected-Leaves :
      (fault : Fault) (s : Session T) → J s.committed → Leaves (λ _. J) (connected fault s)
  connected-Leaves fine s h = (h, h)
  connected-Leaves (before m) s h = h
  connected-Leaves (after m) s h = h

  module _ (R : T → Type 0) where
    settled_at-Leaves :
        (fault : Fault) (a : Settlement) (s : Session T)
        → J s.committed
        → R s.working
        → Leaves (λ _. R) (settled_at fault a s)
    settled_at-Leaves fine a s h r = (h, r)
    settled_at-Leaves (before m) a s h r = h
    settled_at-Leaves (after m) a s h r = h

    pub settle-Leaves :
        (a : Settlement) (s : Session T)
        → J s.committed
        → R s.working
        → Leaves (λ _. R) (settle a s)
    settle-Leaves a s h r =
        settled_at-Leaves (s.broker 0).fault a (record s { broker = later s.broker }) h r

    pub raising-Leaves :
        {A : Type 0} (r : Outcome A) (s : Session T)
        → J s.committed
        → R s.working
        → Leaves (λ _. R) (raising r s)
    raising-Leaves (value a) s h k = (h, k)
    raising-Leaves (raise e) s h k = h

  -- A transaction that ends with the property, where it returns, keeps it.
  pub postgres_connection-Leaves :
      {A : Type 0} (body : Py T A) (s : Session T)
      → J s.committed
      → ((t : Session T) → J t.committed → J t.working → Leaves (λ _. J) (body t))
      → Leaves Anything (postgres_connection body s)
  unfolding postgres_connection
  postgres_connection-Leaves body s h keeps =
      next-Leaves (λ _. J) Anything _
        (connected (s.choices 0).fault (record s { choices = later s.choices }))
        (connected-Leaves (s.choices 0).fault (record s { choices = later s.choices }) h)
        (λ _ t k j.
          rescue-Leaves Anything roll_back_and_raise (next commit_and_return (body t))
            (next-Leaves (λ _. J) Anything commit_and_return (body t) (keeps t k j)
              (λ a u l m.
                next-Leaves Anything Anything (λ _. return a) (commit u)
                  (commit_at-Leaves (u.choices 0).fault (record u { choices = later u.choices }) l
                    m)
                  (λ _ v n _. (n, tt))))
            (λ e u l.
              next-Leaves (λ _. J) Anything (λ _ v. (raise e, v)) (rollback u) (rollback-Leaves u l)
                (λ _ v n _. n)))
