-- ===== src/GcBridge/Reconnecting.antt =====
-- `PublishMulticastMessage` as a whole: when it asks for a connection, and what that comes to.
use ssl_ros_bridge.Prelude.{
  ℕ, suc, ap, ◌-◌, ◌+◌, ◌≤◌, ◌≡◌, refl, ◌⊎◌, inl, inr, Bool, Bool-cases, Option-cases, true, false,
  Option, none, some, List, [], ◌∷◌, ◌++◌, String, ltb, arith,
}
use ssl_ros_bridge.GcBridge.{
  GcBridge, ReconnectReply, timed_out, answered, reconnect_retry_time, request_reconnect,
  handle_reply, publish_and_request, publish_multicast_message,
}

-- A request is made exactly if the client is not connected, the service is there, and the last
-- attempt is a second or more ago.
abbrev pub Asks : {Message : Type 0} → Bool → ℕ → GcBridge Message → Type 0
Asks service_is_ready now b =
    (b.team_client_connected ≡ false)
    × (service_is_ready ≡ true)
    × (b.last_reconnect_attempt_time + reconnect_retry_time ≤ now)

too_soon : (now last wait : ℕ) → ltb (now - last) wait ≡ true → last + wait ≤ now → ⊥
too_soon now last wait h k = absurd (ground arith)

late_enough : (now last wait : ℕ) → ltb (now - last) (suc wait) ≡ false → last + suc wait ≤ now
late_enough now last wait h = ground arith

module _ {Message : Type 0} (service_is_ready : Bool) (now : ℕ) (sender : String)
    (b : GcBridge Message) where
  pub request_reconnect-cases :
      (Asks service_is_ready now b
        × (request_reconnect service_is_ready now sender b ≡ (
          true,
          record b { last_reconnect_attempt_time = now; requests = (now, sender) ∷ b.requests },
        )))
      ⊎ ((Asks service_is_ready now b → ⊥)
          × (request_reconnect service_is_ready now sender b ≡ (false, b)))
  unfolding request_reconnect
  request_reconnect-cases = elim (Bool-cases b.team_client_connected) [
    | inl c ↦ inr (λ (a, q, t). absurd (ground arith), rw (request_reconnect, c) refl)
    | inr c ↦ elim (Bool-cases service_is_ready) [
      | inr r ↦ inr (λ (a, q, t). absurd (ground arith), rw (request_reconnect, c, r) refl)
      | inl r ↦ elim (Bool-cases (ltb (now - b.last_reconnect_attempt_time) reconnect_retry_time)) [
        | inl l ↦ inr (
          λ (a, q, t). too_soon now b.last_reconnect_attempt_time _ l t,
          rw (request_reconnect, c, r, l) refl,
        )
        | inr l ↦ inl (
          (c, r, late_enough now b.last_reconnect_attempt_time _ l),
          rw (request_reconnect, c, r, l) refl,
        )
      ]
    ]
  ]

-- The service answered in time, and with success.
abbrev pub is_success : ReconnectReply → Bool
is_success timed_out = false
is_success (answered success) = success

handle_reply_unconnected :
    {Message : Type 0} (reply : ReconnectReply) (b : GcBridge Message)
    → b.team_client_connected ≡ false
    → handle_reply reply b ≡ record b { team_client_connected = is_success reply }
unfolding handle_reply
handle_reply_unconnected timed_out b h = ap (λ c. record b { team_client_connected = c }) h
handle_reply_unconnected (answered false) b h = ap (λ c. record b { team_client_connected = c }) h
handle_reply_unconnected (answered true) b h = refl

module _ {Referee Message : Type 0} (parse_referee : List ℕ → Option Referee)
    (from_proto : Referee → Message) (service_is_ready : Bool) (now : ℕ) (reply : ReconnectReply)
    (sender : String) (buffer : List ℕ) (b : GcBridge Message) where
  -- A packet that is no referee message changes nothing. Any other is published, and then: if the
  -- client is not connected, the service is there and a second has passed since the last attempt,
  -- one request goes to the packet's sender, and the bridge takes the client to be connected exactly
  -- if the answer comes in time and is a success; else nothing more changes.
  pub publish_multicast_message_lem :
      let b' =
        publish_multicast_message parse_referee from_proto service_is_ready now reply sender buffer
          b in
      ((parse_referee buffer ≡ none) × (b' ≡ b))
      ⊎ ((referee : Referee) × (parse_referee buffer ≡ some referee)
          × Asks service_is_ready now b
          × (b' ≡ record {
            team_client_connected = is_success reply;
            last_reconnect_attempt_time = now;
            published = b.published ++ (from_proto referee ∷ []);
            requests = (now, sender) ∷ b.requests;
          }))
      ⊎ ((referee : Referee) × (parse_referee buffer ≡ some referee)
          × (Asks service_is_ready now b → ⊥)
          × (b' ≡ record b { published = b.published ++ (from_proto referee ∷ []) }))
  unfolding publish_multicast_message publish_and_request
  publish_multicast_message_lem = elim (Option-cases (parse_referee buffer)) [
    | inl e ↦ inl (e, rw (publish_multicast_message, publish_and_request, e) refl)
    | inr (referee, e) ↦
        let shown = record b { published = b.published ++ (from_proto referee ∷ []) } in
        elim (request_reconnect-cases service_is_ready now sender shown) [
          | inl (asks, f) ↦ inr (
              inl (
                referee,
                e,
                asks,
                rw (publish_multicast_message, publish_and_request, e, f)
                    (handle_reply_unconnected reply _ asks.0),
              ))
          | inr (quiet, f) ↦ inr (
              inr
                (referee, e, quiet, rw (publish_multicast_message, publish_and_request, e, f) refl))
        ]
  ]
