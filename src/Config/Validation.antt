-- ===== src/Config/Validation.antt =====
-- What `Validate` of ingress-service/internal/config/config.go guarantees.
use yunxiao_workflow_agent.Base.{
  Char, String, ◌≡◌, Bool, true, false, ◌==◌, none, List, [], ◌∷◌, arith, refl, ◌↔◌, Bool-cases,
  inl, inr, if◌then◌else◌, ◌⊎◌,
}
use yunxiao_workflow_agent.Base.Text.{is_empty, trim_space, to_lower}
use yunxiao_workflow_agent.Config.{
  Config, validate, problems, require_non_default, report, dev_codeup_token, dev_projex_secret,
  dev_flow_token, dev_postgres_dsn, dev_rabbitmq_url,
}

-- A value that is not blank, nor the development default.
abbrev pub IsChosen : String → String → Type 0
IsChosen value default_value =
    (is_empty (trim_space value) ≡ false) × ((value == default_value) ≡ false)

abbrev pub IsReady : Config → Type 0
IsReady c =
    IsChosen c.postgres_dsn dev_postgres_dsn
    × IsChosen c.rabbitmq_url dev_rabbitmq_url
    × IsChosen c.codeup_token dev_codeup_token
    × IsChosen c.projex_secret dev_projex_secret
    × IsChosen c.flow_token dev_flow_token
    × (is_empty (trim_space c.rabbitmq_exchange) ≡ false)

no_problem :
    (name value default_value : String) (rest : List String)
    → (require_non_default name value default_value rest ≡ [])
      ↔ (IsChosen value default_value × (rest ≡ []))
unfolding require_non_default
no_problem name value default_value rest = elim (Bool-cases (is_empty (trim_space value))) [
  | inl e ↦ ground arith
  | inr e ↦ elim (Bool-cases (value == default_value)) [
    | inl d ↦ ground arith
    | inr d ↦ ground arith
  ]
]

report-none : (ps : List String) → (report ps ≡ none) ↔ (ps ≡ [])
report-none [] = ground arith
report-none (p ∷ ps) = ground arith

abbrev unnamed : List String
unnamed = "RABBITMQ_EXCHANGE is required" ∷ []

named_exchange : (b : Bool) → ((if b then unnamed else []) ≡ []) ↔ (b ≡ false)
named_exchange b = ground arith

problems-IsReady : (c : Config) → (problems c ≡ []) ↔ IsReady c
unfolding problems
problems-IsReady c =
    let p1 = no_problem "POSTGRES_DSN" c.postgres_dsn dev_postgres_dsn _ in
    let p2 = no_problem "RABBITMQ_URL" c.rabbitmq_url dev_rabbitmq_url _ in
    let p3 = no_problem "CODEUP_WEBHOOK_TOKEN" c.codeup_token dev_codeup_token _ in
    let p4 = no_problem "PROJEX_WEBHOOK_SECRET" c.projex_secret dev_projex_secret _ in
    let p5 = no_problem "FLOW_WEBHOOK_TOKEN" c.flow_token dev_flow_token _ in
    let p6 = named_exchange (is_empty (trim_space c.rabbitmq_exchange)) in
    (
      λ h.
          let (a, h2) = p1.0 h in
          let (b, h3) = p2.0 h2 in
          let (d, h4) = p3.0 h3 in
          let (e, h5) = p4.0 h4 in let (f, h6) = p5.0 h5 in (a, b, d, e, f, p6.0 h6),
      λ (a, b, d, e, f, g). p1.1 (a, p2.1 (b, p3.1 (d, p4.1 (e, p5.1 (f, p6.1 g))))),
    )

-- A configuration is valid exactly when its environment, in lower case, is not `prod`, or the DSN,
-- the broker's URL and all three webhook tokens are neither blank nor their development defaults
-- and the exchange has a name.
pub validate-IsReady :
    (rune : Char → Char) (c : Config)
    → (validate rune c ≡ none) ↔ (((to_lower rune c.app_env == "prod") ≡ false) ⊎ IsReady c)
unfolding validate
validate-IsReady rune c = elim (Bool-cases (to_lower rune c.app_env == "prod")) [
  | inr other ↦ rw other (λ h. inl refl, λ h. refl)
  | inl prod ↦ rw prod (
    λ h. inr ((problems-IsReady c).0 ((report-none (problems c)).0 h)),
    λ h. elim h [
      | inl other ↦ absurd (cc other)
      | inr ready ↦ (report-none (problems c)).1 ((problems-IsReady c).1 ready)
    ],
  )
]

-- In the `prod` environment a valid configuration is ready.
pub prod-IsReady :
    (rune : Char → Char) (c : Config)
    → (to_lower rune c.app_env == "prod") ≡ true
    → validate rune c ≡ none
    → IsReady c
prod-IsReady rune c prod valid = elim ((validate-IsReady rune c).0 valid) [
  | inl other ↦ absurd (cc (prod, other))
  | inr ready ↦ ready
]
