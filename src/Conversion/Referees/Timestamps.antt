-- ===== src/Conversion/Referees/Timestamps.antt =====
-- The timestamps of a referee message, microseconds there and seconds with nanoseconds here.
use ssl_ros_bridge.Prelude.{
  ℕ, ◌+◌, ◌*◌, ◌/◌, ◌%◌, ◌^◌, ◌<◌, ◌≡◌, ap, ◌∙◌, ℤ, pos, negsuc, signed64, arith,
}
use ssl_ros_bridge.Conversion.Arithmetic.{Arithmetic, TimeMsg}
use ssl_ros_bridge.Conversion.Referees.{time_of_microseconds}

-- rclcpp::Time is exact up to the last second that fits the message's `int32`.
abbrev pub IsExact : Arithmetic → Type 0
IsExact arithmetic =
    (ns : ℕ)
    → ns < 2 ^ 31 * 1_000_000_000
    → arithmetic.time (pos ns)
      ≡ record { sec = pos (ns / 1_000_000_000); nanosec = ns % 1_000_000_000 }

abbrev seconds : ℤ → ℕ
seconds (pos n) = n
seconds (negsuc n) = 0

unfoldable pub original_microseconds : TimeMsg → ℕ
original_microseconds time = seconds time.sec * 1_000_000 + time.nanosec / 1000

product_fits : (us : ℕ) → us < 2 ^ 31 * 1_000_000 → signed64 (us * 1000 % 2 ^ 64) ≡ pos (us * 1000)
product_fits us h = ground arith

split_seconds :
    (us : ℕ)
    → ◌≡◌ {A = TimeMsg}
        (record { sec = pos (us * 1000 / 1_000_000_000); nanosec = us * 1000 % 1_000_000_000 })
        (record { sec = pos (us / 1_000_000); nanosec = us % 1_000_000 * 1000 })
split_seconds us = ground arith

module _ (arithmetic : Arithmetic) (exact : IsExact arithmetic) (us : ℕ)
    (in_range : us < 2 ^ 31 * 1_000_000) where
  -- A number of microseconds up to the last second that the message can hold becomes its seconds and
  -- the nanoseconds of the rest, if the clock is exact: neither the product in `uint64` nor the `int64`
  -- that it becomes wraps.
  pub time_of_microseconds_lem :
      time_of_microseconds arithmetic us
      ≡ record { sec = pos (us / 1_000_000); nanosec = us % 1_000_000 * 1000 }
  unfolding time_of_microseconds
  time_of_microseconds_lem =
      ap arithmetic.time (product_fits us in_range)
      ∙ exact (us * 1000) (omega arith)
      ∙ split_seconds us

  pub original_microseconds-time_of_microseconds :
      original_microseconds (time_of_microseconds arithmetic us) ≡ us
  unfolding original_microseconds
  original_microseconds-time_of_microseconds = rw time_of_microseconds_lem (omega arith)
