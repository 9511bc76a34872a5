-- ===== src/TimeContext/Range.antt =====
-- time_context_service.py, `_time_in_range` against a clock that goes round.
use Prim.Native.Nat.{◌%◌}
use ai_child.Prelude.{ℕ, ◌+◌, ◌-◌, ◌<◌, ◌≡◌, ltb, arith}
use ai_child.TimeContext.{time_in_range, day}

-- how long after a time another one comes, on a clock of a day
abbrev pub elapsed : ℕ → ℕ → ℕ
elapsed start current = (current + day - start) % day

-- A time is in a range exactly if the clock reaches it from the start before it reaches the end, also
-- when the range goes over midnight; a range that ends where it starts is empty.
pub in_range_iff_elapsed :
    (current start end : ℕ)
    → current < day
    → start < day
    → end < day
    → time_in_range current start end ≡ ltb (elapsed start current) (elapsed start end)
unfolding time_in_range
in_range_iff_elapsed current start end hc hs he = ground arith
