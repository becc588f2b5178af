-- ===== src/Orchestrator/Session/Silent.antt =====
-- The steps of orchestrator-service/app that settle no message, over a broker that takes every settlement.
use yunxiao_workflow_agent.Base.{
  Bool, true, false, ◌≡◌, ap, ◌⊎◌, inl, inr, List, ◌∷◌, if◌then◌else◌, ℕ,
}
use yunxiao_workflow_agent.Effects.{Environment, Fault, fine, before, after, later}
use yunxiao_workflow_agent.Orchestrator.Session.{
  Session, Outcome, value, raise, Exc, Py, next, rescue, executed, answered, execute, undone,
  commit, commit_at, rollback, rolled_back, connect, connected, postgres_connection,
  roll_back_and_raise, commit_and_return, return, settle, settled_at, Settlement, raising, now,
  uuid4, ◌>>=◌, try_except,
}

abbrev pub IsFine : Environment → Type 0
IsFine broker = (n : ℕ) → (broker n).fault ≡ fine

module _ {T : Type 0} where
  -- These messages are settled, the last one first, and the broker takes the rest.
  abbrev pub At : List Settlement → Session T → Type 0
  At settled s = (s.settled ≡ settled) × IsFine s.broker

  -- What holds where a value is returned, and what holds where an exception is raised.
  abbrev pub Post :
      {A : Type 0}
      → (A → Session T → Type 0)
      → (Session T → Type 0)
      → Outcome A × Session T
      → Type 0
  Post Q E (value a, s) = Q a s
  Post Q E (raise e, s) = E s

  pub next-Post :
      {A B : Type 0} (P : A → Session T → Type 0) (Q : B → Session T → Type 0)
      (E : Session T → Type 0) (f : A → Py T B) (r : Outcome A × Session T)
      → Post P E r
      → ((a : A) (s : Session T) → P a s → Post Q E (f a s))
      → Post Q E (next f r)
  next-Post P Q E f (value a, s) h go_on = go_on a s h
  next-Post P Q E f (raise e, s) h go_on = h

  pub rescue-Post :
      {A : Type 0} (Q : A → Session T → Type 0) (D E : Session T → Type 0) (handler : Exc → Py T A)
      (r : Outcome A × Session T)
      → Post Q D r
      → ((e : Exc) (s : Session T) → D s → Post Q E (handler e s))
      → Post Q E (rescue handler r)
  rescue-Post Q D E handler (value a, s) h go_on = h
  rescue-Post Q D E handler (raise e, s) h go_on = go_on e s h

  pub weaken-Post :
      {A : Type 0} (P Q : A → Session T → Type 0) (D E : Session T → Type 0)
      (r : Outcome A × Session T)
      → Post P D r
      → ((a : A) (s : Session T) → P a s → Q a s)
      → ((s : Session T) → D s → E s)
      → Post Q E r
  weaken-Post P Q D E (value a, s) h p d = p a s h
  weaken-Post P Q D E (raise e, s) h p d = d s h

  settled_at-Post :
      (fault : Fault) (a : Settlement) (settled : List Settlement) (s : Session T)
      → fault ≡ fine
      → At settled s
      → Post (λ _. At (a ∷ settled)) (λ _. ⊥) (settled_at fault a s)
  settled_at-Post fine a settled s same (h, broker) = (ap (λ l. a ∷ l) h, broker)
  settled_at-Post (before m) a settled s same h = absurd (cc same)
  settled_at-Post (after m) a settled s same h = absurd (cc same)

  pub settle-Post :
      (a : Settlement) (settled : List Settlement) (s : Session T)
      → At settled s
      → Post (λ _. At (a ∷ settled)) (λ _. ⊥) (settle a s)
  settle-Post a settled s (h, broker) =
      settled_at-Post (s.broker 0).fault a settled (record s { broker = later s.broker }) (broker 0)
        (h, λ n. broker _)

  module _ (settled : List Settlement) where
    -- A step that settles nothing.
    abbrev pub IsSilent : {A : Type 0} → Py T A → Type 0
    IsSilent m = (s : Session T) → At settled s → Post (λ _. At settled) (At settled) (m s)

    pub next-IsSilent :
        {A B : Type 0} (m : Py T A) (f : A → Py T B)
        → IsSilent m
        → ((a : A) → IsSilent (f a))
        → IsSilent (m >>= f)
    next-IsSilent m f h k s at =
        next-Post (λ _. At settled) (λ _. At settled) (At settled) f (m s) (h s at)
          (λ a t l. k a t l)

    pub try-IsSilent :
        {A : Type 0} (m : Py T A) (handler : Exc → Py T A)
        → IsSilent m
        → ((e : Exc) → IsSilent (handler e))
        → IsSilent (try_except m handler)
    try-IsSilent m handler h k s at =
        rescue-Post (λ _. At settled) (At settled) (At settled) handler (m s) (h s at)
          (λ e t l. k e t l)

    answered-At :
        {A : Type 0} (s : Session T) (r : Outcome A × T)
        → At settled s
        → Post (λ _. At settled) (At settled) (answered s r)
    answered-At s (value a, t) h = h
    answered-At s (raise e, t) h = h

    if-Post :
        {A : Type 0} (b : Bool) (x y : Outcome A × Session T)
        → Post (λ _. At settled) (At settled) x
        → Post (λ _. At settled) (At settled) y
        → Post (λ _. At settled) (At settled) (if b then x else y)
    if-Post true x y p q = p
    if-Post false x y p q = q

    executed-At :
        {A : Type 0} (fault : Fault) (statement : T → Outcome A × T) (s : Session T)
        → At settled s
        → Post (λ _. At settled) (At settled) (executed fault statement s)
    executed-At fine statement s h = if-Post s.aborted _ _ h (answered-At s (statement s.working) h)
    executed-At (before m) statement s h = h
    executed-At (after m) statement s h = h

    pub execute-IsSilent :
        {A : Type 0} (statement : T → Outcome A × T) → IsSilent (execute statement)
    execute-IsSilent statement s h =
        executed-At (s.choices 0).fault statement (record s { choices = later s.choices }) h

    rolled_back-At :
        (fault : Fault) (s : Session T)
        → At settled s
        → Post (λ _. At settled) (At settled) (rolled_back fault s)
    rolled_back-At fine s h = h
    rolled_back-At (before m) s h = h
    rolled_back-At (after m) s h = h

    pub rollback-IsSilent : IsSilent rollback
    rollback-IsSilent s h =
        rolled_back-At (s.choices 0).fault (record s { choices = later s.choices }) h

    kept-At :
        (b : Bool) (s : Session T)
        → At settled s
        → At settled (if b then undone s else record s { committed = s.working })
    kept-At true s h = h
    kept-At false s h = h

    commit_at-At :
        (fault : Fault) (s : Session T)
        → At settled s
        → Post (λ _. At settled) (At settled) (commit_at fault s)
    commit_at-At fine s h = kept-At s.aborted s h
    commit_at-At (before m) s h = h
    commit_at-At (after m) s h = kept-At s.aborted s h

    commit-IsSilent : IsSilent commit
    commit-IsSilent s h =
        commit_at-At (s.choices 0).fault (record s { choices = later s.choices }) h

    connected-At :
        (fault : Fault) (s : Session T)
        → At settled s
        → Post (λ _. At settled) (At settled) (connected fault s)
    connected-At fine s h = h
    connected-At (before m) s h = h
    connected-At (after m) s h = h

    connect-IsSilent : IsSilent connect
    connect-IsSilent s h =
        connected-At (s.choices 0).fault (record s { choices = later s.choices }) h

    pub raising-IsSilent : {A : Type 0} (r : Outcome A) → IsSilent (raising r)
    raising-IsSilent (value a) s h = h
    raising-IsSilent (raise e) s h = h

    pub now-IsSilent : IsSilent now
    now-IsSilent s h = h

    pub uuid4-IsSilent : IsSilent uuid4
    uuid4-IsSilent s h = h

    pub return-IsSilent : {A : Type 0} (a : A) → IsSilent (return a)
    return-IsSilent a s h = h

    roll_back-Post :
        {A : Type 0} (Q : A → Session T → Type 0) (e : Exc) (s : Session T)
        → At settled s
        → Post Q (At settled) (roll_back_and_raise e s)
    roll_back-Post Q e s h =
        next-Post (λ _. At settled) Q (At settled) (λ _ v. (raise e, v)) (rollback s)
          (rollback-IsSilent s h) (λ _ t k. k)

    commit_and_return-IsSilent : {A : Type 0} (a : A) → IsSilent (commit_and_return a)
    commit_and_return-IsSilent a =
        next-IsSilent commit (λ _. return a) commit-IsSilent (λ _. return-IsSilent a)

  -- What may be settled when a transaction raises.
  abbrev pub Escapes : {A : Type 0} → List Settlement → (A → List Settlement) → Session T → Type 0
  Escapes {A} settled more t = At settled t ⊎ ((a : A) × At (more a) t)

  -- A transaction whose body settles these messages where it returns a value, and none where it raises: the
  -- commit may raise after the body.
  pub postgres_connection-Post :
      {A : Type 0} (settled : List Settlement) (more : A → List Settlement) (body : Py T A)
      (s : Session T)
      → At settled s
      → ((t : Session T) → At settled t → Post (λ a. At (more a)) (At settled) (body t))
      → Post (λ a. At (more a)) (Escapes settled more) (postgres_connection body s)
  unfolding postgres_connection
  postgres_connection-Post {A} settled more body s h runs =
      let E : Session T → Type 0 = Escapes settled more in
      let Q : A → Session T → Type 0 = λ a. At (more a) in
      next-Post (λ _. At settled) Q E _ (connect s)
        (weaken-Post (λ _. At settled) (λ _. At settled) (At settled) E (connect s)
          (connect-IsSilent settled s h) (λ _ t k. k) (λ t k. inl k))
        (λ _ t k.
          rescue-Post Q E E roll_back_and_raise (next commit_and_return (body t))
            (next-Post Q Q E commit_and_return (body t)
              (weaken-Post Q Q (At settled) E (body t) (runs t k) (λ a u l. l) (λ u l. inl l))
              (λ a u l.
                next-Post (λ _. At (more a)) Q E (λ _. return a) (commit u)
                  (weaken-Post (λ _. At (more a)) (λ _. At (more a)) (At (more a)) E (commit u)
                    (commit-IsSilent (more a) u l) (λ _ v m. m) (λ v m. inr (a, m)))
                  (λ _ v m. m)))
            (λ e u l. elim l [
              | inl m ↦
                  weaken-Post Q Q (At settled) E (roll_back_and_raise e u)
                    (roll_back-Post settled Q e u m) (λ a v n. n) (λ v n. inl n)
              | inr (a, m) ↦
                  weaken-Post Q Q (At (more a)) E (roll_back_and_raise e u)
                    (roll_back-Post (more a) Q e u m) (λ b v n. n) (λ v n. inr (a, n))
            ]))
