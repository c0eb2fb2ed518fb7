-- ===== src/Connect/Budget.antt =====
-- `unicastDiscoveryBudget` of kasa/connect.go.
use kasa_exporter.Base.{ℕ, ◌/◌, ◌<◌, ◌≡◌, arith, leb, if◌then◌else◌}
use kasa_exporter.Base.Int.{pos, ◌≤ℤ◌}
use kasa_exporter.Connect.{unicast_discovery_budget}

-- Of a positive timeout the budget is positive and never more than the timeout; it is the whole timeout
-- where that is half a second or less, half a second up to two seconds, and a quarter from then on.
pub budget_bounds :
    (t : ℕ)
    → 0 < t
    → (pos 1 ≤ℤ unicast_discovery_budget (pos t))
      × (unicast_discovery_budget (pos t) ≤ℤ pos t)
      × (unicast_discovery_budget (pos t)
          ≡ pos
              (if leb t 500_000_000 then t else if leb t 2_000_000_000 then 500_000_000 else t / 4))
unfolding unicast_discovery_budget
budget_bounds t h = ground arith
