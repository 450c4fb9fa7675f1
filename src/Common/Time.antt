-- ===== src/Common/Time.antt =====
-- Seconds, which the source keeps as floats, are counted in whole microseconds.
use Prim.Native.Nat.{ℕ}

abbrev pub second : ℕ
second = 1000000
