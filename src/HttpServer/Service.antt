-- ===== src/HttpServer/Service.antt =====
-- The ingress service as a whole: any requests, handled at the same time, over the repository of
-- ingress-service/internal/repository and the publisher of ingress-service/internal/mq.
use yunxiao_workflow_agent.Base.{
  arith, List, ◌∷◌, All, String, ◌≡◌, refl, [], Bool-cases, inl, inr, ◌==◌, ◌&&◌, ◌≤◌,
}
use yunxiao_workflow_agent.Runtime.{Runtime}
use yunxiao_workflow_agent.Http.{Request, Response}
use yunxiao_workflow_agent.Config.{Config}
use yunxiao_workflow_agent.Effects.{Prog, Message, empty_world}
use yunxiao_workflow_agent.Effects.Discipline.{IsOrdered, idle}
use yunxiao_workflow_agent.Effects.Concurrent.{
  System, Step, Reach, arrive, advance, here, next, Reach-keeps,
}
use yunxiao_workflow_agent.Effects.Integrity.{IsConsistent}
use yunxiao_workflow_agent.Effects.Publication.{sent, stored, published_once}
use yunxiao_workflow_agent.Effects.Publication.Marks.{IsMarked, Reach-AllMarked}
use yunxiao_workflow_agent.Effects.Evidence.{
  Shows, Receipt, IsReceived, exec-IsReceived, IsStored, exec-IsStored,
}
use yunxiao_workflow_agent.Effects.Schema.{EventRow}
use yunxiao_workflow_agent.Repository.{new_event_repository}
use yunxiao_workflow_agent.Mq.{rabbit_publisher}
use yunxiao_workflow_agent.HttpServer.{serve, healthz}
use yunxiao_workflow_agent.HttpServer.Order.Answers.{
  codeup_webhook-IsOrdered, projex_webhook-IsOrdered, flow_webhook-IsOrdered,
}

Shows-IsMarked :
    (e : EventRow) (ms : List Message) (rows : List EventRow)
    → All (IsMarked ms) rows
    → Shows (λ x. x) e rows
    → IsMarked ms e
Shows-IsMarked e ms (x ∷ rows) (p, h) (inl same) = rw same at p
Shows-IsMarked e ms (x ∷ rows) (p, h) (inr there) = Shows-IsMarked e ms rows h there
Shows-IsMarked e ms [] h there = absurd there

-- A request in progress.
pub data IsRequest (rt : Runtime) (cfg : Config) (exchange : String) (p : Prog Response)
    : Type 0 where
  serves :
      (method path : String) (request : Request)
      → p
        ≡ serve rt cfg (new_event_repository rt) (rabbit_publisher rt exchange) method path request
      → IsRequest rt cfg exchange p

-- The service at its start, over empty tables.
abbrev pub start : System Response
start = record { world = empty_world; threads = [] }

module _ (rt : Runtime) (cfg : Config) (exchange : String) where
  serve-IsOrdered :
      (method path : String) (request : Request)
      → IsOrdered
          (serve rt cfg
            (new_event_repository rt)
            (rabbit_publisher rt exchange)
            method
            path
            request)
          idle
  unfolding serve healthz
  serve-IsOrdered method path request = elim (Bool-cases (method == "GET" && path == "/healthz")) [
    | inl e ↦ rw e tt
    | inr e ↦ rw e (elim (Bool-cases (method == "POST" && path == "/webhooks/yunxiao/codeup")) [
      | inl e ↦ rw e (codeup_webhook-IsOrdered rt cfg exchange request)
      | inr e ↦ rw e (elim (Bool-cases (method == "POST" && path == "/webhooks/yunxiao/projex")) [
        | inl e ↦ rw e (projex_webhook-IsOrdered rt cfg exchange request)
        | inr e ↦ rw e (elim (Bool-cases (method == "POST" && path == "/webhooks/yunxiao/flow")) [
          | inl e ↦ rw e (flow_webhook-IsOrdered rt cfg exchange request)
          | inr e ↦ rw e tt
        ])
      ])
    ])
  ]

  Step-StartsIdle :
      {s t : System Response}
      → Step (IsRequest rt cfg exchange) s t
      → Step (λ p. IsOrdered p idle) s t
  Step-StartsIdle (arrive p (serves method path request e) f) =
      arrive p (rw e (serve-IsOrdered method path request)) f
  Step-StartsIdle (advance l r c k ch e f) = advance l r c k ch e f

  Reach-StartsIdle :
      {s t : System Response}
      → Reach (IsRequest rt cfg exchange) s t
      → Reach (λ p. IsOrdered p idle) s t
  Reach-StartsIdle here = here
  Reach-StartsIdle (next r st) = next (Reach-StartsIdle r) (Step-StartsIdle st)

  start-IsConsistent : IsConsistent start.world.database
  start-IsConsistent = record {
    ids_below = tt;
    ids_distinct = tt;
    event_ids_distinct = tt;
    dedup_keys_distinct = tt;
    parents = tt;
  }

  -- Whatever requests are served at the same time, in whatever order their calls to the database and
  -- the broker come, and whichever of these calls fail, before they take effect or after, for every
  -- event id: the broker has at most one message with it, and if it has one then the event is stored,
  -- once.
  pub service_publishes_once :
      {t : System Response}
      → Reach (IsRequest rt cfg exchange) start t
      → (id : String) → (sent id t.world ≤ stored id t.world) × (stored id t.world ≤ 1)
  service_publishes_once r id =
      published_once {s = start} refl refl start-IsConsistent (Reach-StartsIdle r) id

  -- Under the same interleavings and faults, an event that is stored with the status published has
  -- exactly one message in the exchange.
  pub service-marks_sent :
      {t : System Response} (e : EventRow)
      → Reach (IsRequest rt cfg exchange) start t
      → Shows (λ x. x) e t.world.database.normalized_events
      → e.publish_status ≡ "published"
      → sent e.event_id t.world ≡ 1
  service-marks_sent {t} e r there published =
      let (once, one_row) = service_publishes_once r e.event_id in
      let some_sent =
        Shows-IsMarked e t.world.messages t.world.database.normalized_events
          (Reach-AllMarked (Reach-StartsIdle r) tt tt) there published in
      omega (arith, once, one_row, some_sent)

  -- Under the same interleavings and faults, what was received is never lost or altered: from any
  -- state on, each raw event keeps its id, source, headers, payload, trace id and times.
  pub service-keeps_receipts :
      {s t : System Response} (e : Receipt)
      → Reach (IsRequest rt cfg exchange) s t
      → IsReceived e s.world.database
      → IsReceived e t.world.database
  service-keeps_receipts e r h =
      Reach-keeps (IsRequest rt cfg exchange) (λ w. IsReceived e w.database) (exec-IsReceived e) r h

  -- And each stored event keeps all its columns but the publication status and time.
  pub service-keeps_events :
      {s t : System Response} (e : EventRow)
      → Reach (IsRequest rt cfg exchange) s t
      → IsStored e s.world.database
      → IsStored e t.world.database
  service-keeps_events e r h =
      Reach-keeps (IsRequest rt cfg exchange) (λ w. IsStored e w.database) (exec-IsStored e) r h
