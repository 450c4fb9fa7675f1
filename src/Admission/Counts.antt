-- ===== src/Admission/Counts.antt =====
-- How a grant and a release change the counts of the controller.
use allcallall_agent_runtime.Common.{ℕ, ◌+◌, ◌-◌, ◌≡◌, false, arith, if◌then◌else◌}
use allcallall_agent_runtime.Common.Eq.{◌==◌, nat_eq}
use allcallall_agent_runtime.Common.Dict.{get-put, get-pop}
use allcallall_agent_runtime.Admission.State.{Controller, org_count, can_grant, occupy}
use allcallall_agent_runtime.Admission.Release.{vacate}

module _ (c : Controller) (org j : ℕ) where
  pub org_count-occupy :
      org_count (occupy org c) j ≡ (if org == j then org_count c org + 1 else org_count c j)
  unfolding org_count occupy
  org_count-occupy = ground (arith, get-put c.org_active org j (org_count c org + 1))

  pub org_count-vacate :
      org_count (vacate org c) j ≡ (if org == j then org_count c org - 1 else org_count c j)
  unfolding org_count vacate
  org_count-vacate =
      ground (arith, get-put c.org_active org j (org_count c org - 1), get-pop c.org_active org j)

  -- More occupied slots never make room.
  pub can_grant-occupy : can_grant c j ≡ false → can_grant (occupy org c) j ≡ false
  unfolding org_count can_grant occupy
  can_grant-occupy h = ground (arith, get-put c.org_active org j (org_count c org + 1))
