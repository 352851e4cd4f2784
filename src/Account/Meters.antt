-- ===== src/Account/Meters.antt =====
-- What the meters of the billing page show.
use project_hawkeye.Base.{ℕ, some, ◌≡◌, ◌≤◌, arith}
use project_hawkeye.Account.{UsageMeter, meter_pct}

-- A meter never shows more than 100 percent.
pub meter_pct_le : (m : UsageMeter) (p : ℕ) → meter_pct m ≡ some p → p ≤ 100
unfolding meter_pct
meter_pct_le m p h = ground arith
