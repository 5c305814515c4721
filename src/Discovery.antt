-- ===== src/Discovery.antt =====
-- packages/discovery/src: the registry of service instances, and the choice among them.
pub mod Balancer
pub mod Registry
mod Tests
use ts_commons.Base.{ℕ, String, Option, Bool, List, true, false}

pub data HealthStatus : Type 0 where
  healthy : HealthStatus
  unhealthy : HealthStatus
  unknown : HealthStatus

-- The port and the metadata are read by no method.
pub record ServiceInstance : Type 0 where
  pub id : String
  pub name : String
  pub host : String
  pub tags : Option (List String)
  pub health : HealthStatus
  pub registered_at : ℕ
  pub last_checked_at : Option ℕ
