-- ===== src/Reconnection.antt =====
-- The bridge of gc_multicast_bridge_node.cpp with the reconnect service of team_client_node.cpp: a
-- packet of the game controller that makes the team client connect to its sender.
pub mod Outcome
pub mod Tests
use text.Mathlib.Text.{◌==◌ as str_eq}
use text.Mathlib.TextEquality.{eq_iff}
use mathlib.Core.Option.{some-injective}
use ssl_ros_bridge.Prelude.{
  ℕ, ◌≡◌, ◌≢◌, refl, sym, subst, ◌∙◌, ◌⊎◌, inl, inr, ◌↔◌, Bool, Bool-cases, Option-cases, true,
  false, Option, none, some, List, [], ◌∷◌, ◌++◌, String, arith, Call, returned, threw,
  if◌then◌else◌, ◌&&◌, ◌>>=◌,
}
use ssl_ros_bridge.TeamClient.Messages.{ControllerToTeam}
use ssl_ros_bridge.TeamClient.Node.{TeamClientNode, NodeEnvironment, handle_reconnect}
use ssl_ros_bridge.TeamClient.Node.Reconnect.{Tried, handle_reconnect_lem}
use ssl_ros_bridge.GcBridge.{
  GcBridge, ReconnectReply, timed_out, answered, handle_reply, publish_and_request,
}
use ssl_ros_bridge.GcBridge.Reconnecting.{Asks}
use ssl_ros_bridge.GcBridge.Interleaving.{packet, message_of, publish_and_request-cases}

-- The future of the request: a handler that throws never answers, and another answers within
-- `kReconnectTimeout` or not.
unfoldable pub reply_of : Bool → Call Bool → ReconnectReply
reply_of in_time threw = timed_out
reply_of true (returned success) = answered success
reply_of false (returned success) = timed_out

module _ {Referee Message Address : Type 0} (parse_referee : List ℕ → Option Referee)
    (from_proto : Referee → Message) (parse_reply : List ℕ → Option ControllerToTeam)
    (parse_address : String → Option Address) (fuel : ℕ) where
  -- `PublishMulticastMessage` with the service that its request calls, and nothing else in between.
  unfoldable pub deliver_packet :
      Bool
      → ℕ
      → Bool
      → NodeEnvironment
      → String
      → List ℕ
      → GcBridge Message × TeamClientNode Address
      → Option (GcBridge Message × TeamClientNode Address)
  deliver_packet service_is_ready now in_time env sender_address buffer (b, n) =
      let (awaits, b') =
        publish_and_request parse_referee from_proto service_is_ready now sender_address buffer b in
      if awaits
      then (do
        answer ← handle_reconnect parse_reply parse_address fuel env sender_address n
        some (handle_reply (reply_of in_time answer.0) b', answer.1))
      else some (b', n)
