-- ===== src/Main/Startup.antt =====
-- When the service of ingress-service/cmd/server/main.go runs.
use yunxiao_workflow_agent.Base.{Char, String, ℕ, ◌≡◌, ◌==◌, ◌⊎◌, Option, none, some, false, refl}
use yunxiao_workflow_agent.Base.Int.{ℤ}
use yunxiao_workflow_agent.Base.Text.{to_lower}
use yunxiao_workflow_agent.Base.Result.{Error, Result, ok, err}
use yunxiao_workflow_agent.Config.{Config, Getenv, load, validate}
use yunxiao_workflow_agent.Config.Validation.{IsReady, validate-IsReady}
use yunxiao_workflow_agent.Mq.Retry.{Connected}
use yunxiao_workflow_agent.Main.{
  Start, running, fatal, unsettled, with_outcome, with_publisher, with_ping, with_database,
  with_config, main,
}

module _ {Db P : Type 0} (rune : Char → Char) (show : ℤ → String)
    (open_database : String → Result Db) (ping : Db → Option Error)
    (connect : String → String → ℕ → Result P) (fuel : ℕ) where
  -- What is known of a server that runs.
  abbrev pub Runs : Config → Start Db P → Type 0
  Runs cfg (running cfg' db p) =
      (cfg' ≡ cfg)
      × (validate rune cfg ≡ none)
      × (open_database cfg.postgres_dsn ≡ ok db)
      × (ping db ≡ none)
  Runs cfg (fatal m) = Unit
  Runs cfg unsettled = Unit

  outcome-Runs :
      (cfg : Config) (db : Db) (result : Option (Connected P))
      → validate rune cfg ≡ none
      → open_database cfg.postgres_dsn ≡ ok db
      → ping db ≡ none
      → Runs cfg (with_publisher cfg db result)
  outcome-Runs cfg db none valid opened pinged = tt
  outcome-Runs cfg db (some c) valid opened pinged = decided c.outcome
    where
      decided : (r : Result P) → Runs cfg (with_outcome cfg db r)
      decided (ok p) = (refl, valid, opened, pinged)
      decided (err e) = tt

  ping-Runs :
      (cfg : Config) (db : Db) (pinged : Option Error)
      → validate rune cfg ≡ none
      → open_database cfg.postgres_dsn ≡ ok db
      → ping db ≡ pinged
      → Runs cfg (with_ping rune show open_database ping connect fuel cfg db pinged)
  unfolding with_ping
  ping-Runs cfg db none valid opened same = outcome-Runs cfg db _ valid opened same
  ping-Runs cfg db (some e) valid opened same = tt

  database-Runs :
      (cfg : Config) (opened : Result Db)
      → validate rune cfg ≡ none
      → open_database cfg.postgres_dsn ≡ opened
      → Runs cfg (with_database rune show open_database ping connect fuel cfg opened)
  unfolding with_database
  database-Runs cfg (ok db) valid same = ping-Runs cfg db (ping db) valid same refl
  database-Runs cfg (err e) valid same = tt

  config-Runs :
      (cfg : Config) (checked : Option Error)
      → validate rune cfg ≡ checked
      → Runs cfg (with_config rune show open_database ping connect fuel cfg checked)
  unfolding with_config
  config-Runs cfg none same = database-Runs cfg (open_database cfg.postgres_dsn) same refl
  config-Runs cfg (some e) same = tt

  main-Runs :
      (getenv : Getenv) → Runs (load getenv) (main rune show open_database ping connect fuel getenv)
  unfolding main
  main-Runs getenv = config-Runs (load getenv) (validate rune (load getenv)) refl

  -- If the server runs, then with the configuration of the environment, which is valid, over the
  -- database that its DSN opens, which answers a ping; outside `prod`, or with secrets and addresses
  -- that are neither blank nor the development defaults.
  pub main-IsReady :
      (getenv : Getenv) (cfg : Config) (db : Db) (p : P)
      → main rune show open_database ping connect fuel getenv ≡ running cfg db p
      → (cfg ≡ load getenv)
        × (open_database cfg.postgres_dsn ≡ ok db)
        × (ping db ≡ none)
        × (((to_lower rune cfg.app_env == "prod") ≡ false) ⊎ IsReady cfg)
  main-IsReady getenv cfg db p h =
      let (same, valid, opened, pinged) = rw h at (main-Runs getenv) in
      (same, rw same opened, pinged, rw same ((validate-IsReady rune (load getenv)).0 valid))
