-- ===== src/TeamClient/Wait.antt =====
-- `TeamClient::WaitForReply`. The clock and the socket are the environment's: `Wait` holds what one
-- call sees of them, the time at which it begins and what each turn of its loop meets. The parser
-- of delimited protobuf messages is a parameter. Times are in nanoseconds.
use ssl_ros_bridge.Prelude.{
  ℕ, zero, suc, ◌+◌, Bool, true, false, Option, none, some, List, leb, ◌==◌, if◌then◌else◌,
}
use ssl_ros_bridge.TeamClient.Messages.{ControllerToTeam}
pub mod Loop

-- `boost::system::error_code`: none, `boost::asio::error::eof`, or another.
pub data ErrorCode : Type 0 where
  success eof other_error : ErrorCode

-- `error_code && error_code != boost::asio::error::eof`
abbrev pub is_fatal : ErrorCode → Bool
is_fatal other_error = true
is_fatal _ = false

-- One turn of the loop: the clock, the answer of `available`, and that of `read`, which fills the
-- buffer with at most 1024 bytes.
pub record Poll : Type 0 where
  pub time : ℕ
  pub available_error : ErrorCode
  pub bytes_available : ℕ
  pub read_error : ErrorCode
  pub received : List ℕ

pub record Wait : Type 0 where
  pub start : ℕ
  pub polls : ℕ → Poll

abbrev pub timeout_ns : ℕ
timeout_ns = 1_000_000_000

pub data Turn : Type 0 where
  -- the function returns: with the reply, or `false`
  decided : Option ControllerToTeam → Turn
  -- `retry_rate.sleep(); continue;`
  idle : Turn

module _ (parse_reply : List ℕ → Option ControllerToTeam) where
  unfoldable pub turn : ℕ → Poll → Turn
  turn timeout p =
      if leb timeout p.time
      then decided none
      else if is_fatal p.available_error
      then decided none
      else if p.bytes_available == 0
      then idle
      else if is_fatal p.read_error
      then decided none
      else decided (parse_reply p.received)

  -- At most `fuel` turns, from the k-th on; `none` if the loop has not ended by then.
  unfoldable pub wait_loop : ℕ → ℕ → (ℕ → Poll) → ℕ → Option (Option ControllerToTeam)
  wait_loop zero timeout polls k = none
  wait_loop (suc fuel) timeout polls k = elim (turn timeout (polls k)) [
    | decided reply ↦ some reply
    | idle ↦ wait_loop fuel timeout polls (suc k)
  ]

  unfoldable pub wait_for_reply : ℕ → Wait → Option (Option ControllerToTeam)
  wait_for_reply fuel w = wait_loop fuel (w.start + timeout_ns) w.polls 0
