-- ===== src/GcBridge.antt =====
-- The node of gc_multicast_bridge_node.cpp: what it does with a packet, and with the connection
-- status of the team client. The parser of referee packets and the conversion of what it yields are
-- parameters. Times are in nanoseconds since the epoch of the steady clock.
pub mod Reconnecting
pub mod Interleaving
pub mod Pacing
pub mod Quiet
pub mod Subscribers
pub mod Listening
pub mod Launch
pub mod Tests
pub mod ReceiverTests
use ssl_ros_bridge.Prelude.{
  ℕ, ◌-◌, Bool, true, false, not, ◌||◌, Option, none, some, List, [], ◌∷◌, ◌++◌, String, ltb,
  if◌then◌else◌,
}

-- `published` is the topic's history, latest last; `requests` is that of the reconnect requests,
-- their time and the address asked for, latest first.
pub record GcBridge (Message : Type 0) : Type 0 where
  pub team_client_connected : Bool
  pub last_reconnect_attempt_time : ℕ
  pub published : List Message
  pub requests : List (ℕ × String)

-- What comes of the request's future within `kReconnectTimeout`.
pub data ReconnectReply : Type 0 where
  timed_out : ReconnectReply
  answered : Bool → ReconnectReply

abbrev pub reconnect_retry_time : ℕ
reconnect_retry_time = 1_000_000_000

module _ {Message : Type 0} where
  -- The members as they are initialized; a `time_point` is at its clock's epoch.
  abbrev pub new_bridge : GcBridge Message
  new_bridge = record {
    team_client_connected = false;
    last_reconnect_attempt_time = 0;
    published = [];
    requests = [];
  }

  -- From the test of the connection to `async_send_request`, and whether that is reached. A clock
  -- that is behind the last attempt is a negative difference, which is below the retry time.
  unfoldable pub request_reconnect : Bool → ℕ → String → GcBridge Message → Bool × GcBridge Message
  request_reconnect service_is_ready now sender_address b =
      if b.team_client_connected || not service_is_ready
      then (false, b)
      else if ltb (now - b.last_reconnect_attempt_time) reconnect_retry_time
      then (false, b)
      else (
        true,
        record b {
          last_reconnect_attempt_time = now;
          requests = (now, sender_address) ∷ b.requests;
        },
      )

  -- From `wait_for` to the end.
  unfoldable pub handle_reply : ReconnectReply → GcBridge Message → GcBridge Message
  handle_reply timed_out b = b
  handle_reply (answered false) b = b
  handle_reply (answered true) b = record b { team_client_connected = true }

  unfoldable pub team_client_connection_status_callback : Bool → GcBridge Message → GcBridge Message
  team_client_connection_status_callback connected b = record b {
    team_client_connected = connected;
  }

module _ {Referee Message : Type 0} (parse_referee : List ℕ → Option Referee)
    (from_proto : Referee → Message) where
  -- `PublishMulticastMessage` up to its wait for the service's answer.
  unfoldable pub publish_and_request :
      Bool → ℕ → String → List ℕ → GcBridge Message → Bool × GcBridge Message
  publish_and_request service_is_ready now sender_address buffer b = elim (parse_referee buffer) [
    | none ↦ (false, b)
    | some referee ↦
        request_reconnect service_is_ready now sender_address
          (record b { published = b.published ++ (from_proto referee ∷ []) })
  ]

  -- The whole of it, when nothing happens during the wait.
  unfoldable pub publish_multicast_message :
      Bool → ℕ → ReconnectReply → String → List ℕ → GcBridge Message → GcBridge Message
  publish_multicast_message service_is_ready now reply sender_address buffer b =
      let (awaits, b') = publish_and_request service_is_ready now sender_address buffer b in
      if awaits then handle_reply reply b' else b'
