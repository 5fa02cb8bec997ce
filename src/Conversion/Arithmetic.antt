-- ===== src/Conversion/Arithmetic.antt =====
-- What the conversions compute with and this repository does not hold: the processor's floating-point
-- numbers, rclcpp::Time with its conversion to a message, and the quaternions of tf2. The constants
-- are those of the source.
use ssl_ros_bridge.Prelude.{ℕ, ℤ}
use ssl_ros_bridge.Conversion.Fields.{Float32, Float64}

-- builtin_interfaces::msg::Time
pub record TimeMsg : Type 0 where
  pub sec : ℤ
  pub nanosec : ℕ

-- geometry_msgs::msg::Quaternion
pub record QuaternionMsg : Type 0 where
  pub x : Float64
  pub y : Float64
  pub z : Float64
  pub w : Float64

pub record Arithmetic : Type 0 where
  -- rclcpp::Time of a number of nanoseconds, as a message
  pub time : ℤ → TimeMsg
  -- x / 1e3 in double, of a float and as a float
  pub divide_by_1e3 : Float32 → Float32
  -- x * mmTom in float, of a float and of an int32
  pub times_mm_to_m : Float32 → Float32
  pub int_times_mm_to_m : ℤ → Float32
  -- the int64 of x * secToNanosec in double
  pub times_sec_to_nanosec : Float64 → ℤ
  -- the conversion from float to double
  pub to_double : Float32 → Float64
  -- tf2::toMsg of a turn about the z axis
  pub rotation_about_z : Float64 → QuaternionMsg
