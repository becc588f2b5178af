-- ===== src/HttpServer/Security.antt =====
-- The credentials that the webhook routes of ingress-service/internal/httpserver/server.go ask for.
use yunxiao_workflow_agent.Base.{Char, String, ◌≡◌, Bool, true, false, ◌==◌, ◌++◌, none, refl}
use yunxiao_workflow_agent.Base.Text.{is_empty, trim_space, to_lower}
use yunxiao_workflow_agent.Config.{Config, validate}
use yunxiao_workflow_agent.Config.Validation.{prod-IsReady}
use yunxiao_workflow_agent.Runtime.{Runtime}
use yunxiao_workflow_agent.Http.{Request, Response, get_header}
use yunxiao_workflow_agent.Effects.{World, Environment, run, exec}
use yunxiao_workflow_agent.Repository.{EventRepository}
use yunxiao_workflow_agent.Mq.{Publisher}
use yunxiao_workflow_agent.Codeup
use yunxiao_workflow_agent.Projex
use yunxiao_workflow_agent.Flow
use yunxiao_workflow_agent.HttpServer.{serve}
use yunxiao_workflow_agent.HttpServer.Persist.{log_webhook}
use yunxiao_workflow_agent.HttpServer.Answers.{reject}
use yunxiao_workflow_agent.HttpServer.CodeupWebhook.{handle_codeup_webhook}
use yunxiao_workflow_agent.HttpServer.ProjexWebhook.{handle_projex_webhook}
use yunxiao_workflow_agent.HttpServer.FlowWebhook.{handle_flow_webhook}

-- A route that asks for a credential.
pub data Route : Type 0 where
  codeup projex flow : Route

abbrev pub path_of : Route → String
path_of Route.codeup = "/webhooks/yunxiao/codeup"
path_of Route.projex = "/webhooks/yunxiao/projex"
path_of Route.flow = "/webhooks/yunxiao/flow"

-- The secret that the configuration has for the route, and the credential that a request brings.
abbrev pub secret_of : Config → Route → String
secret_of cfg Route.codeup = cfg.codeup_token
secret_of cfg Route.projex = cfg.projex_secret
secret_of cfg Route.flow = cfg.flow_token

abbrev pub carries : Request → Route → String → Bool
carries request Route.codeup secret = get_header "X-Codeup-Token" request.header == secret
carries request Route.projex secret = get_header "X-Projex-Signature" request.header == secret
carries request Route.flow secret = get_header "Authorization" request.header == "Bearer " ++ secret

-- The answer is 401, and nothing was stored or sent.
abbrev pub IsRefused : World → Response × World → Type 0
IsRefused w (response, w') =
    (response.status ≡ 401) × (w'.database ≡ w.database) × (w'.messages ≡ w.messages)

not_blank : (s : String) → is_empty (trim_space s) ≡ false → is_empty s ≡ false
unfolding trim_space
not_blank String.[] h = h
not_blank (String.◌∷◌ c s) h = refl

module _ (rt : Runtime) (cfg : Config) (repo : EventRepository) (publisher : Publisher)
    (request : Request) (env : Environment) (w : World) where
  -- Where the configuration has a secret for the route and the request does not carry it, the
  -- handler answers 401 and neither the tables nor the broker change.
  pub refuses :
      (route : Route)
      → is_empty (secret_of cfg route) ≡ false
      → carries request route (secret_of cfg route) ≡ false
      → IsRefused w (run (serve rt cfg repo publisher "POST" (path_of route) request) env w)
  unfolding serve handle_codeup_webhook handle_projex_webhook handle_flow_webhook reject log_webhook
      run exec Codeup.Auth.verify_token Projex.Auth.verify_signature Flow.Auth.verify_token
  refuses Route.codeup given wrong = rw (given, wrong) (refl, refl, refl)
  refuses Route.projex given wrong = rw (given, wrong) (refl, refl, refl)
  refuses Route.flow given wrong = rw (given, wrong) (refl, refl, refl)

  -- In the `prod` environment, with a valid configuration, a request that does not carry the secret
  -- of its route is answered 401, and neither the tables nor the broker change.
  pub prod_refuses :
      (rune : Char → Char) (route : Route)
      → (to_lower rune cfg.app_env == "prod") ≡ true
      → validate rune cfg ≡ none
      → carries request route (secret_of cfg route) ≡ false
      → IsRefused w (run (serve rt cfg repo publisher "POST" (path_of route) request) env w)
  prod_refuses rune route prod valid wrong =
      let (_, _, by_codeup, by_projex, by_flow, _) = prod-IsReady rune cfg prod valid in
      refuses route
        (elim route as (λ r. is_empty (secret_of cfg r) ≡ false) [
          | Route.codeup ↦ not_blank cfg.codeup_token by_codeup.0
          | Route.projex ↦ not_blank cfg.projex_secret by_projex.0
          | Route.flow ↦ not_blank cfg.flow_token by_flow.0
        ])
        wrong
