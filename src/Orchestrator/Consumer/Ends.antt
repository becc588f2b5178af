-- ===== src/Orchestrator/Consumer/Ends.antt =====
-- Tasks and runs that have ended, in the tables that orchestrator-service/app/repositories.py writes.
use yunxiao_workflow_agent.Base.{
  String, Bool, true, false, ◌≡◌, refl, ◌⊎◌, inl, inr, List, [], ◌∷◌, All, Bool-cases, eq_iff,
}
use yunxiao_workflow_agent.Base.Text.{one_of}
use yunxiao_workflow_agent.Orchestrator.Session.Committed.{Gives}
use yunxiao_workflow_agent.Orchestrator.Consumer.Statements.{
  Task, Run, Snapshot, Artifact, Action, Tables, inserted, insert_task, insert_snapshot, insert_run,
  insert_artifact, insert_action, update_where, has_task_id, has_run_id,
}

abbrev pub IsEnd : String → Type 0
IsEnd status = one_of ("succeeded" ∷ "failed" ∷ []) status ≡ true

abbrev HasTaskEnded : Task → Type 0
HasTaskEnded k = IsEnd k.status

abbrev HasRunEnded : Run → Type 0
HasRunEnded r = IsEnd r.status

-- All of them have.
pub record IsEnded (t : Tables) : Type 0 where
  pub tasks_ended : All (λ k. IsEnd k.status) t.tasks
  pub runs_ended : All (λ r. IsEnd r.status) t.runs

-- All of them have, but for what has this property.
abbrev AllBut : {A : Type 0} → (A → Bool) → (A → Type 0) → List A → Type 0
AllBut p P = All (λ x. (p x ≡ true) ⊎ P x)

-- All but this task.
abbrev pub IsOpen : String → Tables → Type 0
IsOpen id t = AllBut (has_task_id id) HasTaskEnded t.tasks × All HasRunEnded t.runs

-- All but this task and this run.
abbrev pub IsRunning : String → String → Tables → Type 0
IsRunning id run_id t =
    AllBut (has_task_id id) HasTaskEnded t.tasks × AllBut (has_run_id run_id) HasRunEnded t.runs

-- What `create_workflow_task` leaves.
abbrev pub Opened : String × Bool → Tables → Type 0
Opened (id, true) t = IsOpen id t
Opened (id, false) t = IsEnded t

module _ {A : Type 0} (p : A → Bool) (P : A → Type 0) where
  All-AllBut : (xs : List A) → All P xs → AllBut p P xs
  All-AllBut [] h = tt
  All-AllBut (x ∷ xs) (k, h) = (inr k, All-AllBut xs h)

  update_where-All :
      (f : A → A) (xs : List A) → ((x : A) → P (f x)) → AllBut p P xs → All P (update_where p f xs)
  unfolding update_where
  update_where-All f [] ends h = tt
  update_where-All f (x ∷ xs) ends (k, h) = elim (Bool-cases (p x)) [
    | inl hit ↦ rw hit (ends x, update_where-All f xs ends h)
    | inr other ↦ rw other (
      elim k [ inl hit ↦ absurd (cc (hit, other)) | inr end ↦ end ],
      update_where-All f xs ends h,
    )
  ]

IsEnded-IsOpen : (id : String) (t : Tables) → IsEnded t → IsOpen id t
IsEnded-IsOpen id t h =
    (All-AllBut (has_task_id id) HasTaskEnded t.tasks h.tasks_ended, h.runs_ended)

pub Opened-IsOpen : (r : String × Bool) (t : Tables) → Opened r t → IsOpen r.0 t
Opened-IsOpen (id, true) t h = h
Opened-IsOpen (id, false) t h = IsEnded-IsOpen id t h

pub end_run-IsOpen :
    (id run_id : String) (f : Run → Run) (t : Tables)
    → ((r : Run) → IsEnd (f r).status)
    → IsRunning id run_id t
    → IsOpen id (record t { runs = update_where (has_run_id run_id) f t.runs })
end_run-IsOpen id run_id f t ends (h, k) =
    (h, update_where-All (has_run_id run_id) HasRunEnded f t.runs ends k)

pub IsOpen-IsRunning : (id run_id : String) (t : Tables) → IsOpen id t → IsRunning id run_id t
IsOpen-IsRunning id run_id t (h, k) = (h, All-AllBut (has_run_id run_id) HasRunEnded t.runs k)

pub end_task-IsEnded :
    (id : String) (f : Task → Task) (t : Tables)
    → ((k : Task) → IsEnd (f k).status)
    → IsOpen id t
    → IsEnded (record t { tasks = update_where (has_task_id id) f t.tasks })
end_task-IsEnded id f t ends (h, k) = record {
  tasks_ended = update_where-All (has_task_id id) HasTaskEnded f t.tasks ends h;
  runs_ended = k;
}

module _ (J : Tables → Type 0) where
  inserted-Gives :
      (Q : Unit → Tables → Type 0) (wide is_new parents : Bool) (t u : Tables)
      → Q tt u
      → Gives J Q (inserted wide is_new parents t u)
  unfolding inserted
  inserted-Gives Q false is_new parents t u q = tt
  inserted-Gives Q true false parents t u q = tt
  inserted-Gives Q true true false t u q = tt
  inserted-Gives Q true true true t u q = q

  pub insert_task-Gives :
      (r : Task) (t : Tables) → IsEnded t → Gives J (λ _. IsOpen r.task_id) (insert_task r t)
  unfolding insert_task
  insert_task-Gives r t h =
      let (tasks, runs) = IsEnded-IsOpen r.task_id t h in
      inserted-Gives (λ _. IsOpen r.task_id) _ _ true t (record t { tasks = r ∷ t.tasks })
        ((inl ((eq_iff r.task_id r.task_id).1 refl), tasks), runs)

  pub insert_run-Gives :
      (id : String) (r : Run) (t : Tables)
      → IsOpen id t
      → Gives J (λ _. IsRunning id r.run_id) (insert_run r t)
  unfolding insert_run
  insert_run-Gives id r t h =
      let (tasks, runs) = IsOpen-IsRunning id r.run_id t h in
      inserted-Gives (λ _. IsRunning id r.run_id) _ _ _ t (record t { runs = r ∷ t.runs })
        (tasks, (inl ((eq_iff r.run_id r.run_id).1 refl), runs))

  pub insert_snapshot-Gives :
      (id : String) (r : Snapshot) (t : Tables)
      → IsOpen id t
      → Gives J (λ _. IsOpen id) (insert_snapshot r t)
  unfolding insert_snapshot
  insert_snapshot-Gives id r t h =
      inserted-Gives (λ _. IsOpen id) _ _ true t (record t { snapshots = r ∷ t.snapshots }) h

  pub insert_artifact-Gives :
      (id run_id : String) (r : Artifact) (t : Tables)
      → IsRunning id run_id t
      → Gives J (λ _. IsRunning id run_id) (insert_artifact r t)
  unfolding insert_artifact
  insert_artifact-Gives id run_id r t h =
      inserted-Gives (λ _. IsRunning id run_id) _ _ _ t (record t { artifacts = r ∷ t.artifacts }) h

  pub insert_action-Gives :
      (id run_id : String) (r : Action) (t : Tables)
      → IsRunning id run_id t
      → Gives J (λ _. IsRunning id run_id) (insert_action r t)
  unfolding insert_action
  insert_action-Gives id run_id r t h =
      inserted-Gives (λ _. IsRunning id run_id) _ _ _ t (record t { actions = r ∷ t.actions }) h
