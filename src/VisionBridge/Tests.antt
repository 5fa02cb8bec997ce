-- ===== src/VisionBridge/Tests.antt =====
-- The vision bridge on three datagrams, of which it cannot parse the second.
use text.Mathlib.Text.{◌==◌ as str_eq}
use ssl_ros_bridge.Prelude.{
  pos, to_u16, threw, false, ◌&&◌, ◌⊎◌, inl, inr, ℕ, ◌≡◌, refl, true, Option, none, some, List, [],
  ◌∷◌, returned, ◌==◌, String,
}
use ssl_ros_bridge.Core.Receiver.{
  MulticastReceiver, Socket, joins, Completion, receives_from, new_receiver, run_receives, unjoined,
  join, join_on_one,
}
use ssl_ros_bridge.Core.Receiver.Delivery.{before_failure, conversions}
use ssl_ros_bridge.VisionBridge.{multicast_callback, vision_bridge_published}
use ssl_ros_bridge.Core.Receiver.Joining.{joining}
use ssl_ros_bridge.Core.Launch.{Overrides}
use ssl_ros_bridge.VisionBridge.Launch.{new_vision_bridge, vision_bridge_launched}

abbrev parse_first : List ℕ → Option ℕ
parse_first [] = none
parse_first (byte ∷ bytes) = some byte

abbrev convert : ℕ → List ℕ
convert n = n ∷ []

abbrev socket : Socket
socket = record { binds = true; join = λ address. joins }

abbrev completions : List Completion
completions =
    receives_from "10.0.0.1" 10020 (7 ∷ 8 ∷ [])
    ∷ receives_from "10.0.0.1" 10020 []
    ∷ receives_from "10.0.0.1" 10020 (9 ∷ [])
    ∷ []

abbrev receiver : MulticastReceiver (List (List ℕ))
receiver = record (join "10.0.0.2" (unjoined [] [])) { receives = true }

made : new_receiver socket [] [] "10.0.0.2" [] ≡ returned receiver
unfolding new_receiver join_on_one
made = refl

vision_bridge_published_example :
    (run_receives (multicast_callback parse_first convert) completions receiver).owner
    ≡ conversions parse_first convert (before_failure completions)
vision_bridge_published_example =
    vision_bridge_published parse_first convert socket [] [] "10.0.0.2" completions made

-- The network binds one socket and no other.
abbrev network : String → ℕ → Socket
network address port = record {
  binds = str_eq address "224.5.23.9" && port == 10020;
  join = λ interface. joins;
}

abbrev given : Overrides
given = record { address = some "224.5.23.9"; port = none; net_interface_address = none }

vision_bridge_launched_example :
    let socket = network "224.5.23.9" (to_u16 (pos 10020)) in
    ((socket.binds ≡ false)
      × (new_vision_bridge {Message = List ℕ} network ("10.0.0.2" ∷ []) [] given ≡ threw))
    ⊎ ((r : MulticastReceiver (List (List ℕ))) × (socket.binds ≡ true)
        × (new_vision_bridge network ("10.0.0.2" ∷ []) [] given ≡ returned r)
        × (r.joined ≡ joining socket ("10.0.0.2" ∷ []))
        × ((run_receives (multicast_callback parse_first convert) completions r).owner
            ≡ conversions parse_first convert (before_failure completions)))
vision_bridge_launched_example =
    vision_bridge_launched parse_first convert network ("10.0.0.2" ∷ []) [] given "224.5.23.9"
      (pos 10020) completions (inl refl) (inr (refl, refl)) refl
