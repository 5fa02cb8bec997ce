-- ===== src/GcBridge/Tests.antt =====
-- The bridge on concrete packets: a parser that takes the first byte for the message.
use ssl_ros_bridge.Prelude.{
  ℕ, refl, true, false, Option, none, some, List, [], ◌∷◌, ◌≡◌, arith, ◌⊎◌, ◌++◌,
}
use ssl_ros_bridge.GcBridge.{
  timed_out, new_bridge, answered, publish_and_request, request_reconnect, handle_reply,
  team_client_connection_status_callback, publish_multicast_message,
}
use ssl_ros_bridge.GcBridge.Interleaving.{
  Threads, Event, packet, reply, status, packet_comes, reply_comes, status_comes, Run, starts,
  goes_on, Run-published, messages_of,
}
use ssl_ros_bridge.GcBridge.Quiet.{IsQuiet, Run-IsQuiet}
use ssl_ros_bridge.GcBridge.Pacing.{Run-IsSpaced, IsSpaced}
use ssl_ros_bridge.GcBridge.Reconnecting.{publish_multicast_message_lem, Asks, is_success}

abbrev pub parse_first : List ℕ → Option ℕ
parse_first [] = none
parse_first (byte ∷ bytes) = some byte

abbrev pub convert : ℕ → ℕ
convert n = n

abbrev start : Threads ℕ
start = record { bridge = new_bridge; clock = 0; waits = false }

-- A packet asks for a connection; a status comes during the wait, and the answer after it; then the
-- connection is lost, and a later packet asks again.
abbrev events : List Event
events =
    packet true 4_000_000_000 "10.0.0.1" (9 ∷ [])
    ∷ status false
    ∷ reply (answered true)
    ∷ status false
    ∷ packet true 2_000_000_000 "10.0.0.1" (7 ∷ [])
    ∷ []

abbrev end : Threads ℕ
end = record {
  bridge = record {
    team_client_connected = false;
    last_reconnect_attempt_time = 4_000_000_000;
    published = 7 ∷ 9 ∷ [];
    requests = (4_000_000_000, "10.0.0.1") ∷ (2_000_000_000, "10.0.0.1") ∷ [];
  };
  clock = 4_000_000_000;
  waits = true;
}

run : Run parse_first convert start events end
unfolding publish_and_request request_reconnect handle_reply team_client_connection_status_callback
run =
    goes_on
      (goes_on
        (goes_on
          (goes_on
            (goes_on starts (packet_comes true 2_000_000_000 "10.0.0.1" (7 ∷ []) (omega arith)))
            (status_comes false))
          (reply_comes (answered true)))
        (status_comes false))
      (packet_comes true 4_000_000_000 "10.0.0.1" (9 ∷ []) (omega arith))

Run-published_example : end.bridge.published ≡ [] ++ messages_of parse_first convert events
Run-published_example = Run-published parse_first convert run

Run-IsSpaced_example : IsSpaced end.bridge.requests
Run-IsSpaced_example = Run-IsSpaced parse_first convert run

publish_multicast_message_lem_example :
    let b = new_bridge in
    let b' =
      publish_multicast_message parse_first convert true 1_000_000_000
        (answered true)
        "10.0.0.1"
        (7 ∷ [])
        b in
    ((parse_first (7 ∷ []) ≡ none) × (b' ≡ b))
    ⊎ ((referee : ℕ) × (parse_first (7 ∷ []) ≡ some referee)
        × Asks true 1_000_000_000 b
        × (b' ≡ record {
          team_client_connected = is_success (answered true);
          last_reconnect_attempt_time = 1_000_000_000;
          published = b.published ++ (convert referee ∷ []);
          requests = (1_000_000_000, "10.0.0.1") ∷ b.requests;
        }))
    ⊎ ((referee : ℕ) × (parse_first (7 ∷ []) ≡ some referee)
        × (Asks true 1_000_000_000 b → ⊥)
        × (b' ≡ record b { published = b.published ++ (convert referee ∷ []) }))
publish_multicast_message_lem_example =
    publish_multicast_message_lem parse_first convert true 1_000_000_000 (answered true) "10.0.0.1"
      (7 ∷ []) new_bridge

-- While it waits for an answer it is told that the client is connected; a packet comes later.
abbrev told : Threads ℕ
told = record {
  bridge = record new_bridge {
    team_client_connected = true;
    last_reconnect_attempt_time = 5;
    requests = (5, "10.0.0.1") ∷ [];
  };
  clock = 5;
  waits = true;
}

abbrev later : List Event
later = packet true 9_000_000_000 "10.0.0.1" (7 ∷ []) ∷ reply timed_out ∷ []

abbrev undisturbed : Threads ℕ
undisturbed = record {
  bridge = record new_bridge {
    team_client_connected = true;
    last_reconnect_attempt_time = 5;
    published = 7 ∷ [];
    requests = (5, "10.0.0.1") ∷ [];
  };
  clock = 9_000_000_000;
  waits = false;
}

resting : Run parse_first convert told later undisturbed
unfolding publish_and_request request_reconnect handle_reply
resting =
    goes_on (goes_on starts (reply_comes timed_out))
      (packet_comes true 9_000_000_000 "10.0.0.1" (7 ∷ []) (omega arith))

Run-IsQuiet_example : IsQuiet parse_first convert told undisturbed
Run-IsQuiet_example = Run-IsQuiet parse_first convert resting (tt, (tt, tt)) refl
