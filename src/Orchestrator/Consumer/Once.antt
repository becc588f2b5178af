-- ===== src/Orchestrator/Consumer/Once.antt =====
-- One task for each event and workflow, and one run for each task: what the statements of
-- orchestrator-service/app/repositories.py keep.
use yunxiao_workflow_agent.Base.{
  String, Bool, true, false, not, ◌&&◌, ◌≡◌, refl, ◌==◌, List, [], ◌∷◌, any, All, arith, Bool-cases,
  inl, inr, eq_iff, ◌∙◌, ap,
}
use yunxiao_workflow_agent.Effects.Integrity.{Distinct}
use yunxiao_workflow_agent.Orchestrator.Session.Invariant.{Answers}
use yunxiao_workflow_agent.Orchestrator.Consumer.Statements.{
  Task, Run, Snapshot, Artifact, Action, Tables, inserted, insert_task, insert_snapshot, insert_run,
  insert_artifact, insert_action, update_where, has_task_id, is_for, of_task,
}

abbrev pub key_of : Task → String × String
key_of t = (t.event_id, t.workflow_type)

abbrev HasTask : List Task → Run → Type 0
HasTask tasks r = any (has_task_id r.task_id) tasks ≡ true

-- uk_task_id, uk_event_workflow, fk_agent_run_task_id, and at most one run for each task, which no key of
-- the tables demands.
pub record IsOnce (t : Tables) : Type 0 where
  pub task_ids_distinct : Distinct has_task_id (λ k. k.task_id) t.tasks
  pub one_task : Distinct is_for key_of t.tasks
  pub runs_of_tasks : All (HasTask t.tasks) t.runs
  pub one_run : Distinct of_task (λ r. r.task_id) t.runs

-- The task has no run.
abbrev pub NoRun : String → Tables → Type 0
NoRun id t = any (of_task id) t.runs ≡ false

more_tasks :
    (task : Task) (tasks : List Task) (runs : List Run)
    → All (HasTask tasks) runs
    → All (HasTask (task ∷ tasks)) runs
more_tasks task tasks [] h = tt
more_tasks task tasks (r ∷ runs) (p, h) = (ground (arith, p), more_tasks task tasks runs h)

fresh_task :
    (id : String) (tasks : List Task) (runs : List Run)
    → All (HasTask tasks) runs
    → any (has_task_id id) tasks ≡ false
    → any (of_task id) runs ≡ false
fresh_task id tasks [] h new = refl
fresh_task id tasks (r ∷ runs) (p, h) new = elim (Bool-cases (r.task_id == id)) [
  | inl same ↦ absurd (cc (rw ((eq_iff r.task_id id).0 same) at p, new))
  | inr other ↦ rw other (fresh_task id tasks runs h new)
]

-- An INSERT that keeps what it must, where it is carried out.
inserted-Answers :
    (Q : Unit → Tables → Type 0) (wide is_new parents : Bool) (t u : Tables)
    → (is_new ≡ true → parents ≡ true → IsOnce u × Q tt u)
    → Answers IsOnce Q (inserted wide is_new parents t u)
unfolding inserted
inserted-Answers Q false is_new parents t u keeps = tt
inserted-Answers Q true false parents t u keeps = tt
inserted-Answers Q true true false t u keeps = tt
inserted-Answers Q true true true t u keeps = keeps refl refl

both_new : (a b : Bool) → (not a && not b) ≡ true → (a ≡ false) × (b ≡ false)
both_new a b h = ground arith

first_of : (a b : Bool) → (a && b) ≡ true → a ≡ true
first_of a b h = ground arith

same_IsOnce : (t u : Tables) → t.tasks ≡ u.tasks → t.runs ≡ u.runs → IsOnce t → IsOnce u
same_IsOnce t u same_tasks same_runs h = record {
  task_ids_distinct = rw same_tasks at h.task_ids_distinct;
  one_task = rw same_tasks at h.one_task;
  runs_of_tasks = rw (same_tasks, same_runs) at h.runs_of_tasks;
  one_run = rw same_runs at h.one_run;
}

pub insert_task-Answers :
    (r : Task) (t : Tables) → IsOnce t → Answers IsOnce (λ _. NoRun r.task_id) (insert_task r t)
unfolding insert_task
insert_task-Answers r t h =
    inserted-Answers (λ _. NoRun r.task_id) _ _ true t (record t { tasks = r ∷ t.tasks })
      (λ is_new _.
        let (new_id, new_key) = both_new _ _ is_new in
        (
          record {
            task_ids_distinct = (new_id, h.task_ids_distinct);
            one_task = (new_key, h.one_task);
            runs_of_tasks = more_tasks r t.tasks t.runs h.runs_of_tasks;
            one_run = h.one_run;
          },
          fresh_task r.task_id t.tasks t.runs h.runs_of_tasks new_id,
        ))

pub insert_snapshot-Answers :
    (r : Snapshot) (id : String) (t : Tables)
    → IsOnce t
    → NoRun id t
    → Answers IsOnce (λ _. NoRun id) (insert_snapshot r t)
unfolding insert_snapshot
insert_snapshot-Answers r id t h none_yet =
    inserted-Answers (λ _. NoRun id) _ _ true t (record t { snapshots = r ∷ t.snapshots })
      (λ _ _. (same_IsOnce t _ refl refl h, none_yet))

pub insert_run-Answers :
    (r : Run) (t : Tables)
    → IsOnce t
    → NoRun r.task_id t
    → Answers IsOnce (λ _ _. Unit) (insert_run r t)
unfolding insert_run
insert_run-Answers r t h none_yet =
    inserted-Answers (λ _ _. Unit) _ _ _ t (record t { runs = r ∷ t.runs })
      (λ _ parents. (
        record {
          task_ids_distinct = h.task_ids_distinct;
          one_task = h.one_task;
          runs_of_tasks = (first_of _ _ parents, h.runs_of_tasks);
          one_run = (none_yet, h.one_run);
        },
        tt,
      ))

pub insert_artifact-Answers :
    (r : Artifact) (t : Tables) → IsOnce t → Answers IsOnce (λ _ _. Unit) (insert_artifact r t)
unfolding insert_artifact
insert_artifact-Answers r t h =
    inserted-Answers (λ _ _. Unit) _ _ _ t (record t { artifacts = r ∷ t.artifacts })
      (λ _ _. (same_IsOnce t _ refl refl h, tt))

pub insert_action-Answers :
    (r : Action) (t : Tables) → IsOnce t → Answers IsOnce (λ _ _. Unit) (insert_action r t)
unfolding insert_action
insert_action-Answers r t h =
    inserted-Answers (λ _ _. Unit) _ _ _ t (record t { actions = r ∷ t.actions })
      (λ _ _. (same_IsOnce t _ refl refl h, tt))

-- An UPDATE that leaves a key alone.
module _ {A K : Type 0} (test : K → A → Bool) (key : A → K) (p : A → Bool) (f : A → A)
    (same_test : (k : K) (x : A) → test k (f x) ≡ test k x)
    (same_key : (x : A) → key (f x) ≡ key x) where
  any-update : (k : K) (xs : List A) → any (test k) (update_where p f xs) ≡ any (test k) xs
  unfolding update_where
  any-update k [] = refl
  any-update k (x ∷ xs) = elim (Bool-cases (p x)) [
    | inl hit ↦ rw (hit, same_test k x, any-update k xs) refl
    | inr other ↦ rw (other, any-update k xs) refl
  ]

  Distinct-update : (xs : List A) → Distinct test key xs → Distinct test key (update_where p f xs)
  unfolding update_where
  Distinct-update [] h = tt
  Distinct-update (x ∷ xs) (new, h) = elim (Bool-cases (p x)) [
    | inl hit ↦ rw (hit, same_key x, any-update (key x) xs) (new, Distinct-update xs h)
    | inr other ↦ rw (other, any-update (key x) xs) (new, Distinct-update xs h)
  ]

HasTask-update_tasks :
    (p : Task → Bool) (f : Task → Task) (tasks : List Task) (runs : List Run)
    → ((x : Task) → (f x).task_id ≡ x.task_id)
    → All (HasTask tasks) runs
    → All (HasTask (update_where p f tasks)) runs
HasTask-update_tasks p f tasks [] same h = tt
HasTask-update_tasks p f tasks (r ∷ runs) same (q, h) = (
  any-update has_task_id (λ k. k.task_id) p f (λ k x. ap (λ id. id == k) (same x)) same r.task_id
        tasks
      ∙ q,
  HasTask-update_tasks p f tasks runs same h,
)

HasTask-update_runs :
    (p : Run → Bool) (f : Run → Run) (tasks : List Task) (runs : List Run)
    → ((x : Run) → (f x).task_id ≡ x.task_id)
    → All (HasTask tasks) runs
    → All (HasTask tasks) (update_where p f runs)
unfolding update_where
HasTask-update_runs p f tasks [] same h = tt
HasTask-update_runs p f tasks (r ∷ runs) same (q, h) = elim (Bool-cases (p r)) [
  | inl hit ↦ rw hit (
    ap (λ id. any (has_task_id id) tasks) (same r) ∙ q,
    HasTask-update_runs p f tasks runs same h,
  )
  | inr other ↦ rw other (q, HasTask-update_runs p f tasks runs same h)
]

pub update_tasks-IsOnce :
    (p : Task → Bool) (f : Task → Task) (t : Tables)
    → ((x : Task) → (f x).task_id ≡ x.task_id)
    → ((x : Task) → key_of (f x) ≡ key_of x)
    → IsOnce t
    → IsOnce (record t { tasks = update_where p f t.tasks })
update_tasks-IsOnce p f t same same_key h = record {
  task_ids_distinct =
      Distinct-update has_task_id (λ k. k.task_id) p f (λ k x. ap (λ id. id == k) (same x)) same
        t.tasks h.task_ids_distinct;
  one_task =
      Distinct-update is_for key_of p f
        (λ k x. ap (λ own. own.0 == k.0 && own.1 == k.1) (same_key x)) same_key t.tasks h.one_task;
  runs_of_tasks = HasTask-update_tasks p f t.tasks t.runs same h.runs_of_tasks;
  one_run = h.one_run;
}

pub update_runs-IsOnce :
    (p : Run → Bool) (f : Run → Run) (t : Tables)
    → ((x : Run) → (f x).task_id ≡ x.task_id)
    → IsOnce t
    → IsOnce (record t { runs = update_where p f t.runs })
update_runs-IsOnce p f t same h = record {
  task_ids_distinct = h.task_ids_distinct;
  one_task = h.one_task;
  runs_of_tasks = HasTask-update_runs p f t.tasks t.runs same h.runs_of_tasks;
  one_run =
      Distinct-update of_task (λ r. r.task_id) p f (λ k x. ap (λ id. id == k) (same x)) same t.runs
        h.one_run;
}
