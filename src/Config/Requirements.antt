-- ===== src/Config/Requirements.antt =====
-- What a process that has started may rely on.
use thryve_financial.Base.{
  ◌≡◌, ◌↔◌, refl, ap, String, Bool, true, false, not, ◌&&◌, List, [], ◌∷◌, ◌==◌, Integer, exceeds,
  All, arith,
}
use thryve_financial.Config.{
  Environment, development, staging, production, Settings, ObservabilityConfig, FloatTests,
  Validated, accepted, SettingsError, missing_values, not_positive, is_otlp, is_no_exporter,
  is_deployed, traces_endpoint, metrics_endpoint, missing, has_items, unless, all_positive,
  rate_limit_items, observability_items, request_items, validate_auth, validate_numbers,
  validate_exporters, validate_production_requirements,
}

abbrev pub IsPositive : String × Integer → Type 0
IsPositive item = exceeds item.1 0 ≡ true

-- The values that a deployed process needs are there.
abbrev pub HasSecrets : {F : Type 0} → Settings F → Type 0
HasSecrets s =
    ((s.auth.supabase_url == "") ≡ false)
    × ((s.auth.audience == "") ≡ false)
    × ((s.auth.supabase_anon_key == "") ≡ false)
    × ((s.anthropic.api_key == "") ≡ false)
    × ((s.plaid.client_id == "") ≡ false)
    × ((s.plaid.secret == "") ≡ false)

-- A deployed process exports its traces and metrics.
abbrev pub IsExporting : {F : Type 0} → Settings F → Type 0
IsExporting s =
    (is_otlp s.observability.traces_exporter ≡ true)
    × (is_otlp s.observability.metrics_exporter ≡ true)

abbrev pub IsDeployable : {F : Type 0} → Settings F → Environment → Type 0
IsDeployable s development = Unit
IsDeployable s staging = HasSecrets s × IsExporting s
IsDeployable s production = HasSecrets s × IsExporting s

-- The exporters that are on have an endpoint.
abbrev pub HasEndpoints : {F : Type 0} → ObservabilityConfig F → Type 0
HasEndpoints o =
    (is_no_exporter o.logs_exporter ≡ true)
    × ((is_otlp o.traces_exporter && traces_endpoint o == "") ≡ false)
    × ((is_otlp o.metrics_exporter && metrics_endpoint o == "") ≡ false)

abbrev pub HasNumbers : {F : Type 0} → FloatTests F → Settings F → Type 0
HasNumbers t s =
    (t.is_ratio s.observability.sampling_ratio ≡ true)
    × (All IsPositive (request_items s)
        × (All IsPositive (observability_items s.observability)
            × (All IsPositive (rate_limit_items s.rate_limit)
                × ((s.auth.clock_skew_seconds.negative ≡ false)
                    × (exceeds s.auth.jwks_cache_ttl_seconds 0 ≡ true)
                    × (t.is_positive s.auth.jwks_refresh_timeout_seconds ≡ true)))))

abbrev pub IsReady : {F : Type 0} → FloatTests F → Settings F → Type 0
IsReady t s = IsDeployable s s.environment × HasEndpoints s.observability × HasNumbers t s

-- A condition and what comes after it, where that is known to be another.
chained : {P Q R S : Type 0} → P ↔ (Q × R) → R ↔ S → P ↔ (Q × S)
chained f g = (λ p. ((f.0 p).0, g.0 (f.0 p).1), λ h. f.1 (h.0, g.1 h.1))

unless-accepted :
    (bad : Bool) (r : SettingsError) (rest : Validated)
    → (unless bad r rest ≡ accepted) ↔ ((bad ≡ false) × (rest ≡ accepted))
unless-accepted false r rest = (λ e. (refl, e), λ h. h.1)
unless-accepted true r rest = (λ e. ground arith, λ h. ground arith)

unless-not-accepted :
    (good : Bool) (r : SettingsError) (rest : Validated)
    → (unless (not good) r rest ≡ accepted) ↔ ((good ≡ true) × (rest ≡ accepted))
unless-not-accepted true r rest = (λ e. (refl, e), λ h. h.1)
unless-not-accepted false r rest = (λ e. ground arith, λ h. ground arith)

all_positive-accepted :
    (items : List (String × Integer)) (rest : Validated)
    → (all_positive items rest ≡ accepted) ↔ (All IsPositive items × (rest ≡ accepted))
all_positive-accepted [] rest = (λ e. (tt, e), λ h. h.1)
all_positive-accepted ((name, value) ∷ items) rest =
    let head =
      unless-not-accepted (exceeds value 0) (not_positive name) (all_positive items rest) in
    let later = all_positive-accepted items rest in
    (
      λ e. (((head.0 e).0, (later.0 (head.0 e).1).0), (later.0 (head.0 e).1).1),
      λ h. head.1 (h.0.0, later.1 (h.0.1, h.1)),
    )

not-false : {b : Bool} → not b ≡ false → b ≡ true
not-false {b} e = ground arith

module _ {F : Type 0} (t : FloatTests F) (s : Settings F) where
  validate_auth-accepted : (validate_auth t s.auth ≡ accepted) ↔ (
      (s.auth.clock_skew_seconds.negative ≡ false)
      × (exceeds s.auth.jwks_cache_ttl_seconds 0 ≡ true)
      × (t.is_positive s.auth.jwks_refresh_timeout_seconds ≡ true))
  validate_auth-accepted = (λ e. ground arith, λ h. ground arith)

  validate_numbers-accepted : (validate_numbers t s ≡ accepted) ↔ HasNumbers t s
  validate_numbers-accepted =
      chained (unless-not-accepted (t.is_ratio s.observability.sampling_ratio) _ _) (
        chained (all_positive-accepted (request_items s) _) (
          chained (all_positive-accepted (observability_items s.observability) _) (
            chained (all_positive-accepted (rate_limit_items s.rate_limit) _)
              validate_auth-accepted)))

  missing-HasSecrets : (has_items (missing s) ≡ false) ↔ HasSecrets s
  missing-HasSecrets = (λ e. ground arith, λ h. ground arith)

  validate_exporters-accepted :
      (rest : Validated)
      → (validate_exporters s rest ≡ accepted) ↔ (
          (is_no_exporter s.observability.logs_exporter ≡ true)
          × (((is_deployed s.environment && not (is_otlp s.observability.traces_exporter)) ≡ false)
              × (((is_deployed s.environment && not (is_otlp s.observability.metrics_exporter))
                    ≡ false)
                  × (((is_otlp s.observability.traces_exporter
                          && traces_endpoint s.observability == "")
                        ≡ false)
                      × (((is_otlp s.observability.metrics_exporter
                              && metrics_endpoint s.observability == "")
                            ≡ false)
                          × (rest ≡ accepted))))))
  validate_exporters-accepted rest =
      chained (unless-not-accepted (is_no_exporter s.observability.logs_exporter) _ _) (
        chained
          (unless-accepted
            (is_deployed s.environment && not (is_otlp s.observability.traces_exporter)) _ _)
          (chained
            (unless-accepted
              (is_deployed s.environment && not (is_otlp s.observability.metrics_exporter)) _ _)
            (chained
              (unless-accepted
                (is_otlp s.observability.traces_exporter && traces_endpoint s.observability == "") _
                _)
              (unless-accepted
                (is_otlp s.observability.metrics_exporter && metrics_endpoint s.observability == "")
                _ rest))))

  -- The tests that the environment asks for.
  abbrev PassesIn : Environment → Type 0
  PassesIn e =
      ((is_deployed e && has_items (missing s)) ≡ false)
      × ((is_deployed e && not (is_otlp s.observability.traces_exporter)) ≡ false)
      × ((is_deployed e && not (is_otlp s.observability.metrics_exporter)) ≡ false)

  passed-deployed :
      (has_items (missing s) ≡ false)
        × (not (is_otlp s.observability.traces_exporter) ≡ false)
        × (not (is_otlp s.observability.metrics_exporter) ≡ false)
      ↔ (HasSecrets s × IsExporting s)
  passed-deployed = (
    λ h. (missing-HasSecrets.0 h.0, (not-false h.1, not-false h.2)),
    λ h. (missing-HasSecrets.1 h.0, ap not h.1.0, ap not h.1.1),
  )

  passed-IsDeployable : (e : Environment) → PassesIn e ↔ IsDeployable s e
  passed-IsDeployable development = (λ h. tt, λ h. (refl, refl, refl))
  passed-IsDeployable staging = passed-deployed
  passed-IsDeployable production = passed-deployed

  pub accepted_iff_IsReady : (validate_production_requirements t s ≡ accepted) ↔ IsReady t s
  unfolding validate_production_requirements
  accepted_iff_IsReady =
      let whole =
        chained
          (unless-accepted (is_deployed s.environment && has_items (missing s))
            (missing_values (missing s)) _)
          (validate_exporters-accepted (validate_numbers t s)) in
      (
        λ e.
            let h = whole.0 e in
            (
              (passed-IsDeployable s.environment).0 (h.0, h.1.1.0, h.1.1.1.0),
              (h.1.0, h.1.1.1.1.0, h.1.1.1.1.1.0),
              validate_numbers-accepted.0 h.1.1.1.1.1.1,
            ),
        λ h.
            let passed = (passed-IsDeployable s.environment).1 h.0 in
            whole.1 (
              passed.0,
              (h.1.0, (passed.1, (passed.2, (h.1.1, (h.1.2, validate_numbers-accepted.1 h.2))))),
            ),
      )
