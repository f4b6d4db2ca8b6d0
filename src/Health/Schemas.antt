-- ===== src/Health/Schemas.antt =====
-- pfm/app/schemas/health.py: what the health snapshot says.
use thryve_financial.Base.{ℕ, String, Option, Dict}

pub data HealthStatus : Type 0 where
  healthy unhealthy : HealthStatus

pub record LatencyHealthCheck : Type 0 where
  pub status : HealthStatus
  pub latency_ms : Option ℕ

pub record AuthHealthCheck : Type 0 where
  pub status : HealthStatus
  pub provider : String

pub record CeleryHealthCheck : Type 0 where
  pub status : HealthStatus
  pub workers : Option ℕ
  pub queues : Option (Dict ℕ)

pub record HealthChecks : Type 0 where
  pub database : LatencyHealthCheck
  pub redis : LatencyHealthCheck
  pub auth : AuthHealthCheck
  pub celery : CeleryHealthCheck

pub record HealthResponse : Type 0 where
  pub status : HealthStatus
  pub checks : HealthChecks
  pub version : String
  pub uptime_seconds : ℕ
