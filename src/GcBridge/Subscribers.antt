-- ===== src/GcBridge/Subscribers.antt =====
-- What the subscribers of the bridge's topic learn of the game controller's packets: the bridge with
-- the conversion of core/message_conversion.cpp.
use mathlib.Core.List.{map-append}
use ssl_ros_bridge.Prelude.{
  ℕ, ◌*◌, ◌^◌, ◌<◌, ◌≡◌, refl, ap, ◌∙◌, inl, inr, Option, Option-cases, List, [], ◌∷◌, ◌++◌, map,
  All, to_list, false,
}
use ssl_ros_bridge.Conversion.Arithmetic.{Arithmetic}
use ssl_ros_bridge.Conversion.Referees.{Referee, RefereeMsg, referee_from_proto}
use ssl_ros_bridge.Conversion.Referees.Timestamps.{IsExact}
use ssl_ros_bridge.Conversion.Referees.Original.{
  original_referee, remembered_referee, original_referee-referee_from_proto,
}
use ssl_ros_bridge.GcBridge.{new_bridge}
use ssl_ros_bridge.GcBridge.Interleaving.{
  Threads, Event, packet, reply, status, Run, message_of, messages_of, Run-published,
}

-- The timestamps that the ROS message can hold.
abbrev pub InRange : Referee → Type 0
InRange r = (r.packet_timestamp < 2 ^ 31 * 1_000_000) × (r.command_timestamp < 2 ^ 31 * 1_000_000)

module _ (parse_referee : List ℕ → Option Referee) where
  -- The referee messages that came, in their order; events stand latest first.
  abbrev pub packet_of : Event → List Referee
  packet_of (packet _ _ _ buffer) = to_list (parse_referee buffer)
  packet_of (reply _) = []
  packet_of (status _) = []

  abbrev pub packets_of : List Event → List Referee
  packets_of [] = []
  packets_of (event ∷ events) = packets_of events ++ packet_of event

  message_of-map :
      {Message : Type 0} (from_proto : Referee → Message) (event : Event)
      → message_of parse_referee from_proto event ≡ map from_proto (packet_of event)
  message_of-map from_proto (packet ready now sender buffer) =
      elim (Option-cases (parse_referee buffer)) [
        | inl e ↦ rw (message_of, packet_of, e) refl
        | inr (r, e) ↦ rw (message_of, packet_of, e) refl
      ]
  message_of-map from_proto (reply r) = refl
  message_of-map from_proto (status s) = refl

  messages_of-map :
      {Message : Type 0} (from_proto : Referee → Message) (events : List Event)
      → messages_of parse_referee from_proto events ≡ map from_proto (packets_of events)
  messages_of-map from_proto [] = refl
  messages_of-map from_proto (event ∷ events) =
      simp (messages_of-map from_proto events, message_of-map from_proto event, map-append)

read_back :
    (arithmetic : Arithmetic) (rs : List Referee)
    → IsExact arithmetic
    → All InRange rs
    → map original_referee (map (referee_from_proto arithmetic) rs) ≡ map remembered_referee rs
read_back arithmetic [] exact h = refl
read_back arithmetic (r ∷ rs) exact ((p, c), hs) =
    rw
      (original_referee-referee_from_proto arithmetic r exact p c, read_back arithmetic rs exact hs)

-- Over any interleaving of the bridge's threads from its start on, a subscriber can read back from
-- the messages published just the referee packets that could be parsed, once each and in order: all
-- of each packet but its designated position, what game events lose, and whether a proposal group's
-- `accepted` was set (it counts as false if not), if the clock is exact and the timestamps are such
-- as the message can hold.
pub Run-read_back :
    (parse_referee : List ℕ → Option Referee) (arithmetic : Arithmetic) (events : List Event)
    {t : Threads RefereeMsg}
    → IsExact arithmetic
    → All InRange (packets_of parse_referee events)
    → Run parse_referee
        (referee_from_proto arithmetic)
        (record { bridge = new_bridge; clock = 0; waits = false })
        events
        t
    → map original_referee t.bridge.published
      ≡ map remembered_referee (packets_of parse_referee events)
Run-read_back parse_referee arithmetic events exact in_range run =
    ap (map original_referee) (
      Run-published parse_referee (referee_from_proto arithmetic) run
      ∙ messages_of-map parse_referee (referee_from_proto arithmetic) events)
    ∙ read_back arithmetic (packets_of parse_referee events) exact in_range
