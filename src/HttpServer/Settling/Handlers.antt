-- ===== src/HttpServer/Settling/Handlers.antt =====
-- The handlers of ingress-service/internal/httpserver/server.go give each raw event one status: the answers, the three handlers, and the routes.
use yunxiao_workflow_agent.Base.{
  nat_beq, false, ℕ, String, true, inl, inr, Bool-cases, Bool, ◌≡◌, ◌⊎◌, refl, [], ◌∷◌, ◌&&◌, ◌==◌,
}
use yunxiao_workflow_agent.Base.Text.{one_of}
use yunxiao_workflow_agent.HttpServer.{serve, healthz, unrouted, is_slashed}
use yunxiao_workflow_agent.Base.Result.{Sentinel, Error, Result, ok, err, errors_is}
use yunxiao_workflow_agent.Runtime.{Runtime, Bytes}
use yunxiao_workflow_agent.Http.{Request, Response}
use yunxiao_workflow_agent.Config.{Config}
use yunxiao_workflow_agent.Model.{NormalizedEvent, RawEventMeta}
use yunxiao_workflow_agent.Effects.{Prog, World, Environment, ◌>>=◌}
use yunxiao_workflow_agent.HttpServer.Settling.Duties.{
  Duty, IsSettling, IsSettling-if, Draws-IsSettling, IsSettling-moves, moves, stored, marked,
  unsaved, final_statuses, free, owed,
}
use yunxiao_workflow_agent.Repository.{
  update_raw_event_process_status, Header, headers_value, EventRepository, new_event_repository,
  save_raw_event, mark_raw_event_ignored, mark_raw_event_invalid_payload, mark_raw_event_failed,
  update_raw_event_meta,
}
use yunxiao_workflow_agent.Mq.{Publisher, rabbit_publisher}
use yunxiao_workflow_agent.Codeup
use yunxiao_workflow_agent.Projex
use yunxiao_workflow_agent.Flow
use yunxiao_workflow_agent.HttpServer.Persist.{log_webhook}
use yunxiao_workflow_agent.HttpServer.Answers.{
  reject, answer_invalid_payload, answer_ignored, answer_failed, finish,
}
use yunxiao_workflow_agent.HttpServer.CodeupWebhook.{
  codeup_meta, codeup_decoded, codeup_saved, codeup_read, handle_codeup_webhook,
}
use yunxiao_workflow_agent.HttpServer.ProjexWebhook.{
  projex_meta, projex_decoded, projex_saved, projex_read, handle_projex_webhook,
}
use yunxiao_workflow_agent.HttpServer.FlowWebhook.{
  flow_meta, flow_payload_meta, flow_decoded, flow_saved, flow_read, handle_flow_webhook,
}
use yunxiao_workflow_agent.HttpServer.Adapters.{
  codeup_normalize-Draws, projex_normalize-Draws, flow_normalize-Draws,
}
use yunxiao_workflow_agent.HttpServer.Settling.Persist.{persist_and_publish-IsSettling}

module _ (rt : Runtime) (cfg : Config) (exchange : String) where
  abbrev repo : EventRepository
  repo = new_event_repository rt

  abbrev publisher : Publisher
  publisher = rabbit_publisher rt exchange

  answer_ignored-IsSettling :
      (trace : String) (id : ℕ) (raw_id : String) (raw : RawEventMeta) (e : Error)
      → IsSettling (answer_ignored repo publisher trace id raw_id raw e) (owed id)
  unfolding answer_ignored mark_raw_event_ignored update_raw_event_process_status log_webhook
  answer_ignored-IsSettling trace id raw_id raw e = λ now. (refl, refl, λ r l. refl)

  answer_failed-IsSettling :
      (trace : String) (id : ℕ) (raw : RawEventMeta) (e : Error)
      → IsSettling (answer_failed repo publisher trace id raw e) (owed id)
  unfolding answer_failed mark_raw_event_failed update_raw_event_process_status log_webhook
  answer_failed-IsSettling trace id raw e = λ now. (refl, refl, λ r l. refl)

  answer_invalid_payload-IsSettling :
      (trace : String) (id : ℕ) (raw_id : String) (raw : RawEventMeta) (message : String)
      (e : Error)
      → IsSettling (answer_invalid_payload repo publisher trace id raw_id raw message e) (owed id)
  unfolding answer_invalid_payload mark_raw_event_invalid_payload update_raw_event_process_status
      log_webhook
  answer_invalid_payload-IsSettling trace id raw_id raw message e = λ now. (refl, refl, λ r l. refl)

  finish-IsSettling :
      (s : Sentinel) (trace : String) (id : ℕ) (raw_id : String) (raw : RawEventMeta)
      (r : Result NormalizedEvent)
      → IsSettling (finish repo publisher s trace id raw_id raw r) (owed id)
  unfolding finish
  finish-IsSettling s trace id raw_id raw (ok event) =
      persist_and_publish-IsSettling rt exchange event id
  finish-IsSettling s trace id raw_id raw (err e) =
      IsSettling-if (errors_is e s) _ _ (owed id) (answer_ignored-IsSettling trace id raw_id raw e)
        (answer_failed-IsSettling trace id raw e)

  result-IsSettling :
      {A B : Type 0} (r : Result A) (f : A → Prog B) (g : Error → Prog B) (k : B → Prog Response)
      (d : Duty)
      → ((a : A) → IsSettling (f a >>= k) d)
      → ((e : Error) → IsSettling (g e >>= k) d)
      → IsSettling (elim r [ err e ↦ g e | ok a ↦ f a ] >>= k) d
  result-IsSettling (ok a) f g k d h i = h a
  result-IsSettling (err e) f g k d h i = i e

  save_raw-IsSettling :
      (meta : RawEventMeta) (headers : Header) (body : Bytes) (valid : Bool) (trace : String)
      (k : Result (ℕ × String) → Prog Response)
      → ((e : Error) → IsSettling (k (err e)) free)
      → ((e : Error) → IsSettling (k (err e)) unsaved)
      → ((id : ℕ) (raw_id : String) → IsSettling (k (ok (id, raw_id))) (owed id))
      → IsSettling (repo.save_raw_event meta headers body valid trace >>= k) free
  unfolding save_raw_event
  save_raw-IsSettling meta headers body valid trace k no_headers no_row saved =
      result-IsSettling (rt.marshal (headers_value headers)) _ _ k free
        (λ json now. (refl, (λ id. saved id _), (λ x. no_row _))) no_headers

  codeup_decoded-IsSettling :
      (trace : String) (request : Request) (body : Bytes) (id : ℕ) (raw_id : String)
      (r : Result Codeup.Payload.WebhookPayload)
      → IsSettling (codeup_decoded rt cfg repo publisher trace request body id raw_id r) (owed id)
  unfolding codeup_decoded
  codeup_decoded-IsSettling trace request body id raw_id (ok payload) =
      Draws-IsSettling (Codeup.Normalizer.normalize rt payload raw_id body trace)
        (finish repo publisher Sentinel.codeup_ignored trace id raw_id (codeup_meta request))
        (owed id) (codeup_normalize-Draws rt payload raw_id body trace)
        (finish-IsSettling Sentinel.codeup_ignored trace id raw_id (codeup_meta request))
  codeup_decoded-IsSettling trace request body id raw_id (err e) =
      answer_invalid_payload-IsSettling trace id raw_id (codeup_meta request) "invalid codeup json"
        e

  codeup_saved-IsSettling :
      (trace : String) (request : Request) (body : Bytes) (id : ℕ) (raw_id : String)
      → IsSettling
          (codeup_saved rt cfg repo publisher trace request body (ok (id, raw_id)))
          (owed id)
  unfolding codeup_saved
  codeup_saved-IsSettling trace request body id raw_id =
      codeup_decoded-IsSettling trace request body id raw_id _

  codeup_read-IsSettling :
      (trace : String) (request : Request) (r : Result Bytes)
      → IsSettling (codeup_read rt cfg repo publisher trace request r) free
  unfolding codeup_read codeup_saved reject log_webhook
  codeup_read-IsSettling trace request (err e) = λ l. refl
  codeup_read-IsSettling trace request (ok body) =
      save_raw-IsSettling (codeup_meta request) request.header body true trace
        (codeup_saved rt cfg repo publisher trace request body) (λ e. refl) (λ e. refl)
        (codeup_saved-IsSettling trace request body)

  codeup_webhook-IsSettling :
      (request : Request) → IsSettling (handle_codeup_webhook rt cfg repo publisher request) free
  unfolding handle_codeup_webhook reject log_webhook
  codeup_webhook-IsSettling request = λ u.
      elim (Bool-cases (Codeup.Auth.verify_token request cfg.codeup_token)) [
        | inl e ↦ rw e (codeup_read-IsSettling _ request request.body)
        | inr e ↦ rw e (λ l. refl)
      ]

  projex_decoded-IsSettling :
      (trace : String) (request : Request) (body : Bytes) (id : ℕ) (raw_id : String)
      (r : Result Projex.Payload.WebhookPayload)
      → IsSettling (projex_decoded rt cfg repo publisher trace request body id raw_id r) (owed id)
  unfolding projex_decoded update_raw_event_meta
  projex_decoded-IsSettling trace request body id raw_id (ok payload) = (
    refl,
    λ r.
        Draws-IsSettling
          (Projex.Normalizer.normalize rt payload request.event_type raw_id body trace)
          (finish repo publisher Sentinel.projex_ignored trace id raw_id
            (projex_meta request payload.id))
          (owed id) (projex_normalize-Draws rt payload request.event_type raw_id body trace)
          (finish-IsSettling Sentinel.projex_ignored trace id raw_id
            (projex_meta request payload.id)),
  )
  projex_decoded-IsSettling trace request body id raw_id (err e) =
      answer_invalid_payload-IsSettling trace id raw_id (projex_meta request "")
        "invalid projex json" e

  projex_saved-IsSettling :
      (trace : String) (request : Request) (body : Bytes) (id : ℕ) (raw_id : String)
      → IsSettling
          (projex_saved rt cfg repo publisher trace request body (ok (id, raw_id)))
          (owed id)
  unfolding projex_saved
  projex_saved-IsSettling trace request body id raw_id =
      projex_decoded-IsSettling trace request body id raw_id _

  projex_read-IsSettling :
      (trace : String) (request : Request) (r : Result Bytes)
      → IsSettling (projex_read rt cfg repo publisher trace request r) free
  unfolding projex_read projex_saved reject log_webhook
  projex_read-IsSettling trace request (err e) = λ l. refl
  projex_read-IsSettling trace request (ok body) =
      save_raw-IsSettling (projex_meta request "") request.header body true trace
        (projex_saved rt cfg repo publisher trace request body) (λ e. refl) (λ e. refl)
        (projex_saved-IsSettling trace request body)

  projex_webhook-IsSettling :
      (request : Request) → IsSettling (handle_projex_webhook rt cfg repo publisher request) free
  unfolding handle_projex_webhook reject log_webhook
  projex_webhook-IsSettling request = λ u.
      elim (Bool-cases (Projex.Auth.verify_signature request cfg.projex_secret)) [
        | inl e ↦ rw e (projex_read-IsSettling _ request request.body)
        | inr e ↦ rw e (λ l. refl)
      ]

  flow_decoded-IsSettling :
      (trace : String) (request : Request) (body : Bytes) (id : ℕ) (raw_id : String)
      (r : Result Flow.Payload.WebhookPayload)
      → IsSettling (flow_decoded rt cfg repo publisher trace request body id raw_id r) (owed id)
  unfolding flow_decoded update_raw_event_meta
  flow_decoded-IsSettling trace request body id raw_id (ok payload) = (
    refl,
    λ r.
        Draws-IsSettling (Flow.Normalizer.normalize rt payload raw_id body trace)
          (finish repo publisher Sentinel.flow_ignored trace id raw_id (flow_payload_meta payload))
          (owed id) (flow_normalize-Draws rt payload raw_id body trace)
          (finish-IsSettling Sentinel.flow_ignored trace id raw_id (flow_payload_meta payload)),
  )
  flow_decoded-IsSettling trace request body id raw_id (err e) =
      answer_invalid_payload-IsSettling trace id raw_id (flow_meta request) "invalid flow json" e

  flow_saved-IsSettling :
      (trace : String) (request : Request) (body : Bytes) (id : ℕ) (raw_id : String)
      → IsSettling (flow_saved rt cfg repo publisher trace request body (ok (id, raw_id))) (owed id)
  unfolding flow_saved
  flow_saved-IsSettling trace request body id raw_id =
      flow_decoded-IsSettling trace request body id raw_id _

  flow_read-IsSettling :
      (trace : String) (request : Request) (r : Result Bytes)
      → IsSettling (flow_read rt cfg repo publisher trace request r) free
  unfolding flow_read flow_saved reject log_webhook
  flow_read-IsSettling trace request (err e) = λ l. refl
  flow_read-IsSettling trace request (ok body) =
      save_raw-IsSettling (flow_meta request) request.header body true trace
        (flow_saved rt cfg repo publisher trace request body) (λ e. refl) (λ e. refl)
        (flow_saved-IsSettling trace request body)

  flow_webhook-IsSettling :
      (request : Request) → IsSettling (handle_flow_webhook rt cfg repo publisher request) free
  unfolding handle_flow_webhook reject log_webhook
  flow_webhook-IsSettling request = λ u.
      elim (Bool-cases (Flow.Auth.verify_token request cfg.flow_token)) [
        | inl e ↦ rw e (flow_read-IsSettling _ request request.body)
        | inr e ↦ rw e (λ l. refl)
      ]

  unrouted-refuses : (method path : String) → nat_beq (unrouted method path).status 202 ≡ false
  unfolding unrouted
  unrouted-refuses method path = elim (Bool-cases (is_slashed method path)) [
    | inl e ↦ rw e (elim (Bool-cases (method == "GET")) [ inl g ↦ rw g refl | inr g ↦ rw g refl ])
    | inr e ↦ rw e refl
  ]

  pub serve-IsSettling :
      (method path : String) (request : Request)
      → IsSettling (serve rt cfg repo publisher method path request) free
  unfolding serve healthz
  serve-IsSettling method path request = elim (Bool-cases (method == "GET" && path == "/healthz")) [
    | inl e ↦ rw e refl
    | inr e ↦ rw e (elim (Bool-cases (method == "POST" && path == "/webhooks/yunxiao/codeup")) [
      | inl e ↦ rw e (codeup_webhook-IsSettling request)
      | inr e ↦ rw e (elim (Bool-cases (method == "POST" && path == "/webhooks/yunxiao/projex")) [
        | inl e ↦ rw e (projex_webhook-IsSettling request)
        | inr e ↦ rw e (elim (Bool-cases (method == "POST" && path == "/webhooks/yunxiao/flow")) [
          | inl e ↦ rw e (flow_webhook-IsSettling request)
          | inr e ↦ rw e (unrouted-refuses method path)
        ])
      ])
    ])
  ]

  -- Whatever the calls to the database and the broker answer, and whether they take effect or not: a
  -- request either has no raw event reported as stored by the database, and asks for no update of a
  -- process status; or it has one, and then asks for exactly one such update, afterwards, of this
  -- raw event, to invalid_payload, ignored, normalized or failed.
  pub moves-serve :
      (method path : String) (request : Request) (env : Environment) (w : World)
      → (moves (serve rt cfg repo publisher method path request) env w ≡ [])
        ⊎ ((id : ℕ) × (status : String) × (moves
                (serve rt cfg repo publisher method path request)
                env
                w
              ≡ stored id ∷ marked id status ∷ [])
            × (one_of final_statuses status ≡ true))
  moves-serve method path request env w =
      IsSettling-moves (serve rt cfg repo publisher method path request) free env w
        (serve-IsSettling method path request)
