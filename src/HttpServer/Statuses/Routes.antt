-- ===== src/HttpServer/Statuses/Routes.antt =====
-- The status codes of the answers of the three webhook handlers of
-- ingress-service/internal/httpserver/server.go.
use yunxiao_workflow_agent.Codeup
use yunxiao_workflow_agent.Projex
use yunxiao_workflow_agent.Flow
use yunxiao_workflow_agent.Base.{
  if◌then◌else◌, Bool, not, ℕ, String, ◌≡◌, true, false, refl, nat_beq, ◌||◌, arith, ◌++◌,
}
use yunxiao_workflow_agent.Base.Result.{Result, ok, err, Sentinel}
use yunxiao_workflow_agent.Http.{Response, Request}
use yunxiao_workflow_agent.Effects.{Prog}
use yunxiao_workflow_agent.Effects.Laws.{Always, Always-weaken}
use yunxiao_workflow_agent.Repository.{EventRepository}
use yunxiao_workflow_agent.Mq.{Publisher}
use yunxiao_workflow_agent.HttpServer.Persist.{log_webhook}
use yunxiao_workflow_agent.HttpServer.Answers.{reject}
use yunxiao_workflow_agent.Config.{Config}
use yunxiao_workflow_agent.Runtime.{Runtime, Bytes}
use yunxiao_workflow_agent.HttpServer.CodeupWebhook.{
  codeup_decoded, codeup_saved, codeup_read, handle_codeup_webhook,
}
use yunxiao_workflow_agent.HttpServer.ProjexWebhook.{
  projex_saved, projex_read, projex_decoded, handle_projex_webhook,
}
use yunxiao_workflow_agent.HttpServer.FlowWebhook.{
  flow_saved, flow_read, flow_decoded, handle_flow_webhook,
}
use yunxiao_workflow_agent.HttpServer.Security.{Route, secret_of, carries, path_of}
use yunxiao_workflow_agent.Base.Text.{is_empty}
use yunxiao_workflow_agent.HttpServer.Statuses.{
  is_served, Served, after_any, finish-Served, invalid-Served,
}
use yunxiao_workflow_agent.HttpServer.{serve}

-- The request carries the secret of the route, or the route has none.
abbrev pub is_authorized : Config → Request → Route → Bool
is_authorized cfg request route =
    is_empty (secret_of cfg route) || carries request route (secret_of cfg route)

-- Let through exactly where `authorized`, and answered 401 exactly where not.
abbrev pub Decides : Bool → Response → Type 0
Decides authorized r = (is_served r.status ≡ authorized) × (nat_beq r.status 401 ≡ not authorized)

module _ (rt : Runtime) (cfg : Config) (repo : EventRepository) (publisher : Publisher) where
  codeup_decoded-Served :
      (trace_id : String) (request : Request) (body : Bytes) (raw_id : ℕ) (raw_payload_id : String)
      (decoded : Result Codeup.Payload.WebhookPayload)
      → Always Served
          (codeup_decoded rt cfg repo publisher trace_id request body raw_id raw_payload_id decoded)
  unfolding codeup_decoded
  codeup_decoded-Served trace_id request body raw_id raw_payload_id (ok payload) =
      after_any (Codeup.Normalizer.normalize rt payload raw_payload_id body trace_id) _
        (finish-Served repo publisher trace_id raw_id raw_payload_id _ Sentinel.codeup_ignored)
  codeup_decoded-Served trace_id request body raw_id raw_payload_id (err e) =
      invalid-Served repo publisher trace_id raw_id raw_payload_id _ _ e

  codeup_saved-Served :
      (trace_id : String) (request : Request) (body : Bytes) (saved : Result (ℕ × String))
      → Always Served (codeup_saved rt cfg repo publisher trace_id request body saved)
  unfolding codeup_saved
  codeup_saved-Served trace_id request body (ok (raw_id, raw_payload_id)) =
      codeup_decoded-Served trace_id request body raw_id raw_payload_id _
  codeup_saved-Served trace_id request body (err e) = refl

  codeup_read-Served :
      (trace_id : String) (request : Request) (body : Result Bytes)
      → Always Served (codeup_read rt cfg repo publisher trace_id request body)
  unfolding codeup_read reject log_webhook
  codeup_read-Served trace_id request (ok body) =
      after_any (repo.save_raw_event _ request.header body true trace_id) _
        (codeup_saved-Served trace_id request body)
  codeup_read-Served trace_id request (err e) = λ u. refl

  projex_decoded-Served :
      (trace_id : String) (request : Request) (body : Bytes) (raw_id : ℕ) (raw_payload_id : String)
      (decoded : Result Projex.Payload.WebhookPayload)
      → Always Served
          (projex_decoded rt cfg repo publisher trace_id request body raw_id raw_payload_id decoded)
  unfolding projex_decoded
  projex_decoded-Served trace_id request body raw_id raw_payload_id (ok payload) =
      after_any (repo.update_raw_event_meta raw_id _) _ (λ updated.
        after_any
          (Projex.Normalizer.normalize rt payload request.event_type raw_payload_id body trace_id) _
          (finish-Served repo publisher trace_id raw_id raw_payload_id _ Sentinel.projex_ignored))
  projex_decoded-Served trace_id request body raw_id raw_payload_id (err e) =
      invalid-Served repo publisher trace_id raw_id raw_payload_id _ _ e

  projex_saved-Served :
      (trace_id : String) (request : Request) (body : Bytes) (saved : Result (ℕ × String))
      → Always Served (projex_saved rt cfg repo publisher trace_id request body saved)
  unfolding projex_saved
  projex_saved-Served trace_id request body (ok (raw_id, raw_payload_id)) =
      projex_decoded-Served trace_id request body raw_id raw_payload_id _
  projex_saved-Served trace_id request body (err e) = refl

  projex_read-Served :
      (trace_id : String) (request : Request) (body : Result Bytes)
      → Always Served (projex_read rt cfg repo publisher trace_id request body)
  unfolding projex_read reject log_webhook
  projex_read-Served trace_id request (ok body) =
      after_any (repo.save_raw_event _ request.header body true trace_id) _
        (projex_saved-Served trace_id request body)
  projex_read-Served trace_id request (err e) = λ u. refl

  flow_decoded-Served :
      (trace_id : String) (request : Request) (body : Bytes) (raw_id : ℕ) (raw_payload_id : String)
      (decoded : Result Flow.Payload.WebhookPayload)
      → Always Served
          (flow_decoded rt cfg repo publisher trace_id request body raw_id raw_payload_id decoded)
  unfolding flow_decoded
  flow_decoded-Served trace_id request body raw_id raw_payload_id (ok payload) =
      after_any (repo.update_raw_event_meta raw_id _) _ (λ updated.
        after_any (Flow.Normalizer.normalize rt payload raw_payload_id body trace_id) _
          (finish-Served repo publisher trace_id raw_id raw_payload_id _ Sentinel.flow_ignored))
  flow_decoded-Served trace_id request body raw_id raw_payload_id (err e) =
      invalid-Served repo publisher trace_id raw_id raw_payload_id _ _ e

  flow_saved-Served :
      (trace_id : String) (request : Request) (body : Bytes) (saved : Result (ℕ × String))
      → Always Served (flow_saved rt cfg repo publisher trace_id request body saved)
  unfolding flow_saved
  flow_saved-Served trace_id request body (ok (raw_id, raw_payload_id)) =
      flow_decoded-Served trace_id request body raw_id raw_payload_id _
  flow_saved-Served trace_id request body (err e) = refl

  flow_read-Served :
      (trace_id : String) (request : Request) (body : Result Bytes)
      → Always Served (flow_read rt cfg repo publisher trace_id request body)
  unfolding flow_read reject log_webhook
  flow_read-Served trace_id request (ok body) =
      after_any (repo.save_raw_event _ request.header body true trace_id) _
        (flow_saved-Served trace_id request body)
  flow_read-Served trace_id request (err e) = λ u. refl

  either : (x y : Bool) → (if x then true else y) ≡ (x || y)
  either x y = ground arith

  decide :
      (b : Bool) (p q : Prog Response)
      → Always Served p
      → Always (λ r. r.status ≡ 401) q
      → Always (Decides b) (if not b then q else p)
  decide true p q h k = Always-weaken Served (Decides true) p served h
    where
      served : (r : Response) → Served r → Decides true r
      served r e = ground arith
  decide false p q h k = Always-weaken (λ r. r.status ≡ 401) (Decides false) q refused k
    where
      refused : (r : Response) → r.status ≡ 401 → Decides false r
      refused r e = rw e (refl, refl)

  -- Whatever the repository, the publisher and the adapters answer, and whether or not the secret is
  -- right: the answer of a webhook route is 401 exactly when the configuration has a secret for
  -- the route that the request does not carry; and it is one of 200, 202, 400 and 500 otherwise.
  pub decides :
      (route : Route) (request : Request)
      → Always
          (Decides (is_authorized cfg request route))
          (serve rt cfg repo publisher "POST" (path_of route) request)
  unfolding serve handle_codeup_webhook handle_projex_webhook handle_flow_webhook reject log_webhook
      Codeup.Auth.verify_token Projex.Auth.verify_signature Flow.Auth.verify_token
  decides Route.codeup request =
      rw
        (either (is_empty (secret_of cfg Route.codeup))
          (carries request Route.codeup (secret_of cfg Route.codeup)))
        (λ u.
          decide (is_authorized cfg request Route.codeup) _ _
            (codeup_read-Served ("trace_" ++ u) request request.body) (λ l. refl))
  decides Route.projex request =
      rw
        (either (is_empty (secret_of cfg Route.projex))
          (carries request Route.projex (secret_of cfg Route.projex)))
        (λ u.
          decide (is_authorized cfg request Route.projex) _ _
            (projex_read-Served ("trace_" ++ u) request request.body) (λ l. refl))
  decides Route.flow request =
      rw
        (either (is_empty (secret_of cfg Route.flow))
          (carries request Route.flow (secret_of cfg Route.flow)))
        (λ u.
          decide (is_authorized cfg request Route.flow) _ _
            (flow_read-Served ("trace_" ++ u) request request.body) (λ l. refl))
