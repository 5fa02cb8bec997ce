-- ===== src/GcBridge/ReceiverTests.antt =====
-- The bridge with the conversion of messages, and on its receiver.
use text.Mathlib.Text.{◌==◌ as str_eq}
use ssl_ros_bridge.Prelude.{
  pos, to_u16, threw, false, ◌&&◌, ◌⊎◌, inl, inr, ◌==◌, String, ℕ, zero, suc, refl, returned, true,
  Option, none, some, List, [], ◌∷◌, ◌≡◌, arith, map,
}
use ssl_ros_bridge.Core.Receiver.Joining.{joining}
use ssl_ros_bridge.Core.Launch.{Overrides}
use ssl_ros_bridge.GcBridge.Launch.{new_gc_bridge, gc_bridge_launched}
use ssl_ros_bridge.Conversion.Examples.{plain, plain-IsExact, message}
use ssl_ros_bridge.Conversion.Referees.{Referee, RefereeMsg, referee_from_proto}
use ssl_ros_bridge.Conversion.Referees.Original.{original_referee, remembered_referee}
use ssl_ros_bridge.Core.Receiver.{
  MulticastReceiver, Socket, joins, Completion, fails, receives_from, run_receives,
}
use ssl_ros_bridge.Core.Receiver.Delivery.{before_failure, conversions}
use ssl_ros_bridge.GcBridge.Listening.{Surroundings, packet_callback}
use ssl_ros_bridge.GcBridge.{
  GcBridge, timed_out, new_bridge, answered, publish_and_request, request_reconnect,
  team_client_connection_status_callback,
}
use ssl_ros_bridge.GcBridge.Interleaving.{
  Threads, Event, packet, status, packet_comes, status_comes, Run, starts, goes_on,
}
use ssl_ros_bridge.GcBridge.Subscribers.{packets_of, Run-read_back}
use ssl_ros_bridge.GcBridge.Tests.{parse_first, convert}

-- A parser that takes any byte for the same message.
abbrev parse_message : List ℕ → Option Referee
parse_message [] = none
parse_message (byte ∷ bytes) = some message

-- The message comes twice, and something else in between.
abbrev messages : List Event
messages =
    packet false 9 "10.0.0.1" (7 ∷ [])
    ∷ packet false 8 "10.0.0.1" []
    ∷ status true
    ∷ packet false 7 "10.0.0.1" (7 ∷ [])
    ∷ []

abbrev heard : Threads RefereeMsg
heard = record {
  bridge = record {
    team_client_connected = true;
    last_reconnect_attempt_time = 0;
    published = referee_from_proto plain message ∷ referee_from_proto plain message ∷ [];
    requests = [];
  };
  clock = 9;
  waits = false;
}

hearing :
    Run parse_message
      (referee_from_proto plain)
      (record { bridge = new_bridge; clock = 0; waits = false })
      messages
      heard
unfolding publish_and_request request_reconnect team_client_connection_status_callback
hearing =
    goes_on
      (goes_on
        (goes_on (goes_on starts (packet_comes false 7 "10.0.0.1" (7 ∷ []) (omega arith)))
          (status_comes true))
        (packet_comes false 8 "10.0.0.1" [] (omega arith)))
      (packet_comes false 9 "10.0.0.1" (7 ∷ []) (omega arith))

Run-read_back_example :
    map original_referee heard.bridge.published
    ≡ map remembered_referee (packets_of parse_message messages)
Run-read_back_example =
    Run-read_back parse_message plain messages plain-IsExact
      ((omega arith, omega arith), ((omega arith, omega arith), tt)) hearing

abbrev completions : List Completion
completions =
    receives_from "10.0.0.1" 10003 (7 ∷ 8 ∷ [])
    ∷ receives_from "10.0.0.1" 10003 []
    ∷ receives_from "10.0.0.1" 10003 (9 ∷ [])
    ∷ fails "network down"
    ∷ []

-- The first packet asks in vain, and the third again.
abbrev around : ℕ → Surroundings
around zero = record { service_is_ready = true; now = 1_000_000_000; reply = timed_out }
around (suc k) = record { service_is_ready = true; now = 3_000_000_000; reply = answered true }

-- The network binds one socket and no other.
abbrev network : String → ℕ → Socket
network address port = record {
  binds = str_eq address "224.5.23.1" && port == 10003;
  join = λ interface. joins;
}

abbrev given : Overrides
given = record { address = none; port = some (pos 75_539); net_interface_address = none }

gc_bridge_launched_example :
    let socket = network "224.5.23.1" (to_u16 (pos 75_539)) in
    ((socket.binds ≡ false)
      × (new_gc_bridge {Message = ℕ} network ("10.0.0.2" ∷ []) [] given ≡ threw))
    ⊎ ((r : MulticastReceiver (GcBridge ℕ × ℕ)) × (socket.binds ≡ true)
        × (new_gc_bridge network ("10.0.0.2" ∷ []) [] given ≡ returned r)
        × (r.joined ≡ joining socket ("10.0.0.2" ∷ []))
        × ((run_receives
              (packet_callback parse_first convert around)
              completions
              r).owner.0.published
            ≡ conversions parse_first convert (before_failure completions)))
gc_bridge_launched_example =
    gc_bridge_launched parse_first convert around network ("10.0.0.2" ∷ []) [] given "224.5.23.1"
      (pos 75_539) completions (inr (refl, refl)) (inl refl) refl
