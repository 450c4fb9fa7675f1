-- ===== src/Deadline/Clamping.antt =====
-- deadline.py: the deadline of a request, from the caller's and the local one.
use allcallall_agent_runtime.Common.{ℕ, ◌-◌, min, Option, none, some}

-- The time that a request is given: the caller's where it sends a readable deadline, and never
-- more than the local maximum.
abbrev pub allowance : Option ℕ → ℕ → ℕ → ℕ
allowance none default now_utc = default
allowance (some utc) default now_utc = min (utc - now_utc) default
