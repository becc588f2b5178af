-- ===== src/Tests/Startup.antt =====
-- The theorems on the start of the service at a concrete environment.
use yunxiao_workflow_agent.Base.{
  String, ◌≡◌, ◌==◌, ◌⊎◌, false, refl, none, ℕ, Option, if◌then◌else◌,
}
use yunxiao_workflow_agent.Base.Text.{to_lower}
use yunxiao_workflow_agent.Base.Result.{Result, ok, Error}
use yunxiao_workflow_agent.Config
use yunxiao_workflow_agent.Main

-- A production environment.
abbrev production : Config.Getenv
production key =
    if key == "APP_ENV"
    then "Prod"
    else if key == "POSTGRES_DSN"
    then "postgres://db"
    else if key == "RABBITMQ_URL"
    then "amqp://mq"
    else if key == "CODEUP_WEBHOOK_TOKEN"
    then "c"
    else if key == "PROJEX_WEBHOOK_SECRET"
    then "p"
    else if key == "FLOW_WEBHOOK_TOKEN"
    then "f"
    else ""

abbrev opens : String → Result String
opens dsn = ok dsn

abbrev pings : String → Option Error
pings db = none

abbrev connects : String → String → ℕ → Result String
connects url exchange n = ok url

running_example :
    (Config.load production ≡ Config.load production)
    × (opens (Config.load production).postgres_dsn ≡ ok "postgres://db")
    × (pings "postgres://db" ≡ none)
    × (((to_lower (λ c. c) (Config.load production).app_env == "prod") ≡ false)
        ⊎ Config.Validation.IsReady (Config.load production))
unfolding Main.main Main.with_config Config.validate Config.load Main.with_database Main.with_ping
    yunxiao_workflow_agent.Mq.Retry.new_rabbit_publisher_with_retry
running_example =
    Main.Startup.main-IsReady (λ c. c) (λ d. "1m0s") opens pings connects 1 production
      (Config.load production) "postgres://db" "amqp://mq" refl
