-- ===== src/TimeUtils/Difference.antt =====
-- The difference of two 32-bit times against that of the times that they are cut from.
use librtcbase.Prelude.{ℕ, ◌+◌, ◌%◌, ◌^◌, ◌≤◌, ◌<◌, ◌≡◌, arith}
use librtcbase.Prelude.Int.{pos, ◌-ℤ◌}
use librtcbase.TimeUtils.{time_diff, time_diff32}

-- If the later time is less than 2 ^ 31 after the earlier and at most 2 ^ 31 before it, then the
-- 32-bit difference of their low 32 bits is their difference.
pub time_diff32_lem :
    (later earlier : ℕ)
    → later < earlier + 2 ^ 31
    → earlier ≤ later + 2 ^ 31
    → time_diff32 (later % 2 ^ 32) (earlier % 2 ^ 32) ≡ time_diff (pos later) (pos earlier)
unfolding time_diff32 time_diff ◌-ℤ◌
time_diff32_lem later earlier front back = ground arith
