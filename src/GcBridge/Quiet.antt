-- ===== src/GcBridge/Quiet.antt =====
-- When the bridge leaves the team client alone.
use ssl_ros_bridge.Prelude.{ℕ, ◌≡◌, refl, ap, ◌∙◌, inl, inr, true, false, Option, List, All, arith}
use ssl_ros_bridge.GcBridge.{
  GcBridge, timed_out, answered, handle_reply, team_client_connection_status_callback,
}
use ssl_ros_bridge.GcBridge.Interleaving.{
  Threads, Event, packet, reply, status, Step, packet_comes, reply_comes, status_comes, Run, starts,
  goes_on, publish_and_request-cases,
}

-- An event that is no news of a lost connection.
abbrev pub IsGood : Event → Type 0
IsGood (packet _ _ _ _) = Unit
IsGood (reply _) = Unit
IsGood (status connected) = connected ≡ true

module _ {Referee Message : Type 0} (parse_referee : List ℕ → Option Referee)
    (from_proto : Referee → Message) where
  -- The client is taken to be connected, and the requests are those of `s`.
  abbrev pub IsQuiet : Threads Message → Threads Message → Type 0
  IsQuiet s t = (t.bridge.team_client_connected ≡ true) × (t.bridge.requests ≡ s.bridge.requests)

  Step-IsQuiet :
      {event : Event} {s t : Threads Message}
      → Step parse_referee from_proto event s t
      → IsGood event
      → s.bridge.team_client_connected ≡ true
      → IsQuiet s t
  unfolding handle_reply team_client_connection_status_callback
  Step-IsQuiet (packet_comes {b} ready now sender buffer later) good on =
      elim (publish_and_request-cases parse_referee from_proto ready now sender buffer b) [
        | inl (parsed, asks, f, g) ↦ absurd (ground arith)
        | inr (rests, f, g) ↦ (
          ap (λ (c : GcBridge Message). c.team_client_connected) g ∙ on,
          ap (λ (c : GcBridge Message). c.requests) g,
        )
      ]
  Step-IsQuiet (reply_comes timed_out) good on = (on, refl)
  Step-IsQuiet (reply_comes (answered false)) good on = (on, refl)
  Step-IsQuiet (reply_comes (answered true)) good on = (refl, refl)
  Step-IsQuiet (status_comes connected) good on = (good, refl)

  -- A bridge that takes the client to be connected goes on doing so and makes no request, over any run
  -- of packets, answers and status messages in which no status says that it is not connected.
  pub Run-IsQuiet :
      {s : Threads Message} {events : List Event} {t : Threads Message}
      → Run parse_referee from_proto s events t
      → All IsGood events
      → s.bridge.team_client_connected ≡ true
      → IsQuiet s t
  Run-IsQuiet starts good on = (on, refl)
  Run-IsQuiet (goes_on run step) (good, goods) on =
      let (still, same) = Run-IsQuiet run goods on in
      let (now_on, kept) = Step-IsQuiet step good still in (now_on, kept ∙ same)
