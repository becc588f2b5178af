-- ===== src/Repository/Refinement.antt =====
-- The repository of ingress-service/internal/repository/event_repository.go implements the store of
-- Spec.
use yunxiao_workflow_agent.Base.{
  ℕ, ◌∙◌, Option-cases, String, ◌≡◌, refl, List, [], ◌∷◌, inl, inr, ap, false, ◌&&◌,
}
use yunxiao_workflow_agent.Base.Result.{Error, Result, ok, err, errors_is, Sentinel}
use yunxiao_workflow_agent.Effects.{Environment, run, World, ret, ◌>>=◌, exec}
use yunxiao_workflow_agent.Effects.Tables.{
  find_by_key, set_failed, set_published, select_event_id, update_published, update_publish_failed,
  event_fits,
}
use yunxiao_workflow_agent.Repository.{
  EventRepository, new_event_repository, mark_publish_failed, event_columns, is_ok, saved_event,
  save_normalized_event, insert_event, nullable_string, find_normalized_event_id_by_dedup_key,
}
use yunxiao_workflow_agent.Repository
use yunxiao_workflow_agent.Json.{Json}
use yunxiao_workflow_agent.Runtime.{Runtime, utc}
use yunxiao_workflow_agent.Model.{NormalizedEvent, external_refs_json}
use yunxiao_workflow_agent.Effects.Calm.{Calmly, Calmly-bind, Calmly-run, IsCalm}
use yunxiao_workflow_agent.Repository.Spec.{
  steps, Op, Out, save, find, mark_published, mark_failed, done, save_if, step,
}
use yunxiao_workflow_agent.Repository.Client.{view, saved, perform, perform_all, columns_fit, holds}
use yunxiao_workflow_agent.Repository.Maps.{view-update, insert_lem}

module _ (rt : Runtime) where
  save_lem :
      (e : NormalizedEvent) (raw_id : ℕ) (w : World) (refs : Result String)
      → ((x : Error) → refs ≡ err x → errors_is x Sentinel.duplicate_event ≡ false)
      → Calmly
          (λ out v.
            (out, view v)
            ≡ save_if (is_ok refs && columns_fit e) e.event_id e.dedup_key raw_id (view w))
          (insert_event rt e raw_id refs >>= λ r. ret (saved r))
          w
  unfolding insert_event exec event_fits
  save_lem e raw_id w (err x) no_sentinel = rw (no_sentinel x refl) refl
  save_lem e raw_id w (ok refs) no_sentinel =
      λ uuid time uuid' time'. insert_lem (event_columns e raw_id refs time) w

  -- What one call returns and leaves behind.
  abbrev Steps : Op → World → Out → World → Type 0
  Steps op w out v = (out, view v) ≡ step (holds rt) op (view w)

  perform_lem :
      (op : Op) (w : World)
      → ((j : Json) (x : Error)
          → rt.marshal j ≡ err x
          → errors_is x Sentinel.duplicate_event ≡ false)
      → Calmly (Steps op w) (perform (new_event_repository rt) op) w
  unfolding perform save_normalized_event exec find_normalized_event_id_by_dedup_key select_event_id
      Repository.mark_published mark_publish_failed update_published update_publish_failed
  perform_lem (save e raw_id) w no_sentinel =
      save_lem e raw_id w (rt.marshal (external_refs_json e.external_refs))
        (no_sentinel (external_refs_json e.external_refs))
  perform_lem (find key) w no_sentinel = λ uuid time.
      elim (Option-cases (find_by_key key w.database.normalized_events)) [
        | inl absent ↦ rw absent refl
        | inr (id, there) ↦ rw there refl
      ]
  perform_lem (mark_published id) w no_sentinel = λ uuid time uuid' time'.
      ap (λ s. (done, s))
        (view-update (set_published (utc time)) "published" (λ _. refl) (λ _. refl) (λ _. refl) id
          w)
  perform_lem (mark_failed id) w no_sentinel = λ uuid time.
      ap (λ s. (done, s)) (view-update set_failed "failed" (λ _. refl) (λ _. refl) (λ _. refl) id w)

  perform_all_lem :
      (ops : List Op) (w : World)
      → ((j : Json) (x : Error)
          → rt.marshal j ≡ err x
          → errors_is x Sentinel.duplicate_event ≡ false)
      → Calmly
          (λ outs v. (outs, view v) ≡ steps (holds rt) ops (view w))
          (perform_all (new_event_repository rt) ops)
          w
  unfolding perform_all steps
  perform_all_lem [] w no_sentinel = refl
  perform_all_lem (op ∷ ops) w no_sentinel =
      Calmly-bind (Steps op w) (λ outs u. (outs, view u) ≡ steps (holds rt) (op ∷ ops) (view w))
        (perform (new_event_repository rt) op)
        (λ out. perform_all (new_event_repository rt) ops >>= λ outs. ret (out ∷ outs)) w
        (perform_lem op w no_sentinel)
        (λ out v one.
          Calmly-bind (λ outs u. (outs, view u) ≡ steps (holds rt) ops (view v))
            (λ outs u. (outs, view u) ≡ steps (holds rt) (op ∷ ops) (view w))
            (perform_all (new_event_repository rt) ops) (λ outs. ret (out ∷ outs)) v
            (perform_all_lem ops v no_sentinel)
            (λ outs u rest.
              ap (λ r. (out ∷ r.0, r.1)) rest
              ∙ ap (λ r. let t = steps (holds rt) ops r.1 in (r.0 ∷ t.0, t.1)) one))

-- Where no call fails, any sequence of calls of the repository, in any database, returns what the store
-- of Spec returns, and leaves tables that stand for the store that it leaves: an event is a duplicate
-- exactly where its event id or its dedup key is stored, a search finds the event saved with the key,
-- and the publication status of an event is that of the last mark. (`json.Marshal` is assumed never to
-- fail with ErrDuplicateEvent.)
pub perform_all-steps :
    (rt : Runtime) (ops : List Op) (env : Environment) (w : World)
    → ((j : Json) (x : Error) → rt.marshal j ≡ err x → errors_is x Sentinel.duplicate_event ≡ false)
    → IsCalm env
    → let (outs, v) = run (perform_all (new_event_repository rt) ops) env w in
      (outs, view v) ≡ steps (holds rt) ops (view w)
perform_all-steps rt ops env w no_sentinel calm =
    Calmly-run (λ outs v. (outs, view v) ≡ steps (holds rt) ops (view w))
      (perform_all (new_event_repository rt) ops) env w calm (perform_all_lem rt ops w no_sentinel)
