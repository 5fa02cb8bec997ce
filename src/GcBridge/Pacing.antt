-- ===== src/GcBridge/Pacing.antt =====
-- The rate of the reconnect requests, over any interleaving of the bridge's threads.
use ssl_ros_bridge.Prelude.{
  ℕ, ◌+◌, ◌≤◌, ◌≡◌, refl, sym, subst, ◌⊎◌, inl, inr, true, false, Option, List, [], ◌∷◌, String,
  arith,
}
use ssl_ros_bridge.GcBridge.{
  GcBridge, ReconnectReply, reconnect_retry_time, new_bridge, handle_reply,
  team_client_connection_status_callback,
}
use ssl_ros_bridge.GcBridge.Interleaving.{
  Threads, Event, Step, packet_comes, reply_comes, status_comes, Run, starts, goes_on,
  publish_and_request-cases,
}

-- Each request is at least the retry time later than the one before it; latest first.
abbrev pub IsSpaced : List (ℕ × String) → Type 0
IsSpaced [] = Unit
IsSpaced ((time, address) ∷ []) = Unit
IsSpaced ((time, address) ∷ (before, address') ∷ rest) =
    (before + reconnect_retry_time ≤ time) × IsSpaced ((before, address') ∷ rest)

-- What the requests say of each other and of the last attempt.
pub record IsPaced {Message : Type 0} (b : GcBridge Message) (clock : ℕ) : Type 0 where
  pub spaced : IsSpaced b.requests
  pub latest :
      (b.requests ≡ [])
      ⊎ ((address : String) × (rest : List (ℕ × String)) × (b.requests
            ≡ (b.last_reconnect_attempt_time, address) ∷ rest))
  pub past : b.last_reconnect_attempt_time ≤ clock

ask-IsPaced :
    {Message : Type 0} (b : GcBridge Message) (clock now : ℕ) (sender : String)
    (published : List Message)
    → b.last_reconnect_attempt_time + reconnect_retry_time ≤ now
    → IsPaced b clock
    → IsPaced
        (record b {
          last_reconnect_attempt_time = now;
          published = published;
          requests = (now, sender) ∷ b.requests;
        })
        now
ask-IsPaced b clock now sender published late ok = record {
  spaced = elim ok.latest [
    | inl e ↦ subst (λ rest. IsSpaced ((now, sender) ∷ rest)) (sym e) tt
    | inr (address, rest, e) ↦
        subst (λ rest. IsSpaced ((now, sender) ∷ rest)) (sym e) (late, subst IsSpaced e ok.spaced)
  ];
  latest = inr (sender, b.requests, refl);
  past = omega arith;
}

module _ {Referee Message : Type 0} (parse_referee : List ℕ → Option Referee)
    (from_proto : Referee → Message) where
  Step-IsPaced :
      {event : Event} {s t : Threads Message}
      → Step parse_referee from_proto event s t
      → IsPaced s.bridge s.clock
      → IsPaced t.bridge t.clock
  unfolding handle_reply team_client_connection_status_callback
  Step-IsPaced (packet_comes {b} {clock} ready now sender buffer later) ok =
      elim (publish_and_request-cases parse_referee from_proto ready now sender buffer b) [
        | inl (parsed, asks, f, g) ↦
            subst (λ (c : GcBridge Message). IsPaced c now) (sym g)
              (ask-IsPaced b clock now sender _ asks.2 ok)
        | inr (quiet, f, g) ↦
            let kept : IsPaced (record b { published = _ }) now = record {
              spaced = ok.spaced;
              latest = ok.latest;
              past = omega arith;
            } in
            subst (λ (c : GcBridge Message). IsPaced c now) (sym g) kept
      ]
  Step-IsPaced (reply_comes ReconnectReply.timed_out) ok = record {
    spaced = ok.spaced;
    latest = ok.latest;
    past = ok.past;
  }
  Step-IsPaced (reply_comes (ReconnectReply.answered false)) ok = record {
    spaced = ok.spaced;
    latest = ok.latest;
    past = ok.past;
  }
  Step-IsPaced (reply_comes (ReconnectReply.answered true)) ok = record {
    spaced = ok.spaced;
    latest = ok.latest;
    past = ok.past;
  }
  Step-IsPaced (status_comes connected) ok = record {
    spaced = ok.spaced;
    latest = ok.latest;
    past = ok.past;
  }

  Run-IsPaced :
      {s : Threads Message} {events : List Event} {t : Threads Message}
      → Run parse_referee from_proto s events t
      → IsPaced s.bridge s.clock
      → IsPaced t.bridge t.clock
  Run-IsPaced starts ok = ok
  Run-IsPaced (goes_on run step) ok = Step-IsPaced step (Run-IsPaced run ok)

  -- From the start of the node on, and however the two threads and the service take their turns, two
  -- reconnect requests in a row are at least one second apart.
  pub Run-IsSpaced :
      {events : List Event} {t : Threads Message}
      → Run parse_referee from_proto
          (record { bridge = new_bridge; clock = 0; waits = false })
          events
          t
      → IsSpaced t.bridge.requests
  Run-IsSpaced run =
      let fresh : IsPaced new_bridge 0 = record {
        spaced = tt;
        latest = inl refl;
        past = omega arith;
      } in
      (Run-IsPaced run fresh).spaced
