-- ===== src/GcBridge/Interleaving.antt =====
-- The bridge's two threads. Packets are handled one at a time by the thread of the multicast
-- receiver, which stands still while it waits for the reconnect service; the callback of the
-- connection status runs on another thread, and may come in between. The accesses to
-- `team_client_connected_` are taken to be atomic, which the source does not ask for.
use mathlib.Core.List.{append-nil, append_assoc}
use ssl_ros_bridge.Prelude.{
  ℕ, ◌≤◌, ◌≡◌, ◌≢◌, refl, sym, ap, ◌⊎◌, inl, inr, Bool, Option-cases, true, false, Option, none,
  some, List, [], ◌∷◌, ◌++◌, String, if◌then◌else◌, arith,
}
use ssl_ros_bridge.GcBridge.{
  GcBridge, ReconnectReply, handle_reply, publish_and_request, publish_multicast_message,
  team_client_connection_status_callback,
}
use ssl_ros_bridge.GcBridge.Reconnecting.{Asks, request_reconnect-cases}

-- The bridge, the last time that the clock has shown, and whether the receiver's thread waits.
pub record Threads (Message : Type 0) : Type 0 where
  pub bridge : GcBridge Message
  pub clock : ℕ
  pub waits : Bool

pub data Event : Type 0 where
  packet : Bool → ℕ → String → List ℕ → Event
  reply : ReconnectReply → Event
  status : Bool → Event

module _ {Referee Message : Type 0} (parse_referee : List ℕ → Option Referee)
    (from_proto : Referee → Message) where
  pub data Step : Event → Threads Message → Threads Message → Type 0 where
    packet_comes :
        {b : GcBridge Message} {clock : ℕ} (service_is_ready : Bool) (now : ℕ) (sender : String)
        (buffer : List ℕ)
        → clock ≤ now
        → Step
            (packet service_is_ready now sender buffer)
            (record { bridge = b; clock = clock; waits = false })
            (record {
              bridge =
                  (publish_and_request parse_referee from_proto service_is_ready now sender buffer
                    b).1;
              clock = now;
              waits =
                  (publish_and_request parse_referee from_proto service_is_ready now sender buffer
                    b).0;
            })
    reply_comes :
        {b : GcBridge Message} {clock : ℕ} (r : ReconnectReply)
        → Step
            (reply r)
            (record { bridge = b; clock = clock; waits = true })
            (record { bridge = handle_reply r b; clock = clock; waits = false })
    status_comes :
        {b : GcBridge Message} {clock : ℕ} {waits : Bool} (connected : Bool)
        → Step
            (status connected)
            (record { bridge = b; clock = clock; waits = waits })
            (record {
              bridge = team_client_connection_status_callback connected b;
              clock = clock;
              waits = waits;
            })

  -- A run, latest event first.
  pub data Run (s : Threads Message) : List Event → Threads Message → Type 0 where
    starts : Run s [] s
    goes_on :
        {t u : Threads Message} {event : Event} {events : List Event}
        → Run s events t
        → Step event t u
        → Run s (event ∷ events) u

  -- The messages of the packets that can be parsed, in the order in which they came.
  abbrev pub message_of : Event → List Message
  message_of (packet _ _ _ buffer) = elim (parse_referee buffer) [
    | none ↦ []
    | some referee ↦ from_proto referee ∷ []
  ]
  message_of (reply _) = []
  message_of (status _) = []

  abbrev pub messages_of : List Event → List Message
  messages_of [] = []
  messages_of (event ∷ events) = messages_of events ++ message_of event

  pub publish_and_request-cases :
      (ready : Bool) (now : ℕ) (sender : String) (buffer : List ℕ) (b : GcBridge Message)
      → let (asked, b') = publish_and_request parse_referee from_proto ready now sender buffer b in
        let published = b.published ++ message_of (packet ready now sender buffer) in
        ((parse_referee buffer ≢ none)
          × Asks ready now b
          × (asked ≡ true)
          × (b' ≡ record b {
            last_reconnect_attempt_time = now;
            published = published;
            requests = (now, sender) ∷ b.requests;
          }))
        ⊎ (((parse_referee buffer ≡ none) ⊎ (Asks ready now b → ⊥))
            × (asked ≡ false)
            × (b' ≡ record b { published = published }))
  unfolding publish_and_request
  publish_and_request-cases ready now sender buffer b = elim (Option-cases (parse_referee buffer)) [
    | inl e ↦ inr (
      inl e,
      rw (publish_and_request, e) refl,
      rw (publish_and_request, message_of, e, append-nil) refl,
    )
    | inr (referee, e) ↦
        elim (request_reconnect-cases ready now sender
          (record b { published = b.published ++ (from_proto referee ∷ []) })) [
            | inl (asks, f) ↦ inl (
              λ h. absurd (ground arith),
              asks,
              rw (publish_and_request, e, f) refl,
              rw (publish_and_request, message_of, e, f) refl,
            )
            | inr (quiet, f) ↦ inr (
              inr quiet,
              rw (publish_and_request, e, f) refl,
              rw (publish_and_request, message_of, e, f) refl,
            )
          ]
  ]

  Step-published :
      {event : Event} {s t : Threads Message}
      → Step event s t
      → t.bridge.published ≡ s.bridge.published ++ message_of event
  unfolding handle_reply team_client_connection_status_callback
  Step-published (packet_comes {b} ready now sender buffer later) =
      elim (publish_and_request-cases ready now sender buffer b) [
        | inl (parsed, asks, f, g) ↦ ap (λ (c : GcBridge Message). c.published) g
        | inr (quiet, f, g) ↦ ap (λ (c : GcBridge Message). c.published) g
      ]
  Step-published (reply_comes ReconnectReply.timed_out) = sym (append-nil _)
  Step-published (reply_comes (ReconnectReply.answered false)) = sym (append-nil _)
  Step-published (reply_comes (ReconnectReply.answered true)) = sym (append-nil _)
  Step-published (status_comes connected) = sym (append-nil _)

  -- Whatever the service answers and whenever the status comes, what is published is the conversion
  -- of each packet that can be parsed, once each and in the order in which they came.
  pub Run-published :
      {s : Threads Message} {events : List Event} {t : Threads Message}
      → Run s events t
      → t.bridge.published ≡ s.bridge.published ++ messages_of events
  Run-published starts = sym (append-nil _)
  Run-published {s = s} (goes_on {events = events} run step) =
      rw (Step-published step, Run-published run)
        (append_assoc s.bridge.published (messages_of events) _)

  finish :
      {s : Threads Message} {events : List Event} (asked : Bool) (r : ReconnectReply)
      (b : GcBridge Message) (now : ℕ)
      → Run s events (record { bridge = b; clock = now; waits = asked })
      → (events' : List Event) × Run s events'
          (record { bridge = if asked then handle_reply r b else b; clock = now; waits = false })
  finish true r b now run = (_, goes_on run (reply_comes r))
  finish false r b now run = (_, run)

  -- Without an event in between, the two steps are the function as a whole.
  pub publish_multicast_message-Run :
      (ready : Bool) (now : ℕ) (r : ReconnectReply) (sender : String) (buffer : List ℕ)
      (b : GcBridge Message) (clock : ℕ)
      → clock ≤ now
      → (events : List Event) × Run
          (record { bridge = b; clock = clock; waits = false })
          events
          (record {
            bridge = publish_multicast_message parse_referee from_proto ready now r sender buffer b;
            clock = now;
            waits = false;
          })
  unfolding publish_multicast_message
  publish_multicast_message-Run ready now r sender buffer b clock later =
      finish _ r _ now (goes_on starts (packet_comes ready now sender buffer later))
