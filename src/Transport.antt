-- ===== src/Transport.antt =====
-- The `transport` interface of kasa/iot.go, over the state of whatever implements it.
pub mod Ideal
use kasa_exporter.Base.Text.{Text}
use kasa_exporter.Errors.{Result}

pub record Transport (S : Type 0) : Type 0 where
  pub query : S → Text → Result Text × S
  pub close : S → S
