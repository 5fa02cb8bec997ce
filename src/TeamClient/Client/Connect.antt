-- ===== src/TeamClient/Client/Connect.antt =====
-- `TeamClient::Connect`: when it succeeds, and what it leaves behind in each case.
use ssl_ros_bridge.Prelude.{
  ℕ, ◌≡◌, refl, ◌⊎◌, ◌↔◌, inl, inr, Bool, Bool-cases, Option-cases, true, false, Option, none, some,
  List, [], ◌∷◌, ◌++◌, arith, Call, returned, threw,
}
use ssl_ros_bridge.TeamClient.Messages.{
  ok, ControllerReply, ControllerToTeam, registration, ConnectionParameters,
}
use ssl_ros_bridge.TeamClient.Wait.{wait_for_reply}
use ssl_ros_bridge.TeamClient.Client.{
  TeamClient, ConnectAnswer, connects, refuses, ConnectEnvironment, team_of_color, take_greeting,
  take_registration_reply, attempt_to_connect_socket, attempt_to_register, register_if_connected,
  connect, has_bad_status,
}

-- The controller's answer is a reply whose status, if it has one, is OK.
abbrev pub Accepts : Option ControllerToTeam → Type 0
Accepts m =
    (reply : ControllerReply) × (m ≡ some (record { controller_reply = some reply }))
    × ((reply.status_code ≡ none) ⊎ (reply.status_code ≡ some ok))

-- A client that says it is connected has an open socket.
abbrev pub IsConsistent : {Address : Type 0} → TeamClient Address → Type 0
IsConsistent c = c.connected ≡ true → c.socket_open ≡ true

pub good_status :
    (reply : ControllerReply)
    → has_bad_status reply ≡ false
    → (reply.status_code ≡ none) ⊎ (reply.status_code ≡ some ok)
good_status reply h = ground arith

-- The other two functions test the same of the controller's answer.
pub Accepts-cases :
    (m : Option ControllerToTeam)
    → ((r : ControllerReply) × (m ≡ some (record { controller_reply = some r }))
        × (has_bad_status r ≡ false))
      ⊎ ((r : ControllerReply) × (m ≡ some (record { controller_reply = some r }))
          × (has_bad_status r ≡ true))
      ⊎ (m ≡ none)
      ⊎ (m ≡ some (record { controller_reply = none }))
Accepts-cases none = inr (inr (inl refl))
Accepts-cases (some m) = elim (Option-cases m.controller_reply) [
  | inl e ↦ inr (inr (inr (ground arith)))
  | inr (r, e) ↦ elim (Bool-cases (has_bad_status r)) [
    | inl bad ↦ inr (inl (r, ground arith, bad))
    | inr good ↦ inl (r, ground arith, good)
  ]
]

pub take_registration_reply_iff :
    (m : Option ControllerToTeam) → (take_registration_reply m ≡ true) ↔ Accepts m
unfolding take_registration_reply
take_registration_reply_iff m = elim (Accepts-cases m) [
  | inl (r, e, good) ↦ (λ _. (r, e, good_status r good), λ _. ground arith)
  | inr (inl (r, e, bad)) ↦ (λ h. absurd (ground arith), λ (r', e', s). ground arith)
  | inr (inr (inl e)) ↦ (λ h. absurd (ground arith), λ (r', e', s). ground arith)
  | inr (inr (inr e)) ↦ (λ h. absurd (ground arith), λ (r', e', s). ground arith)
]

module _ {Address : Type 0} (parse_reply : List ℕ → Option ControllerToTeam) (fuel : ℕ)
    (env : ConnectEnvironment) (parameters : ConnectionParameters Address)
    (c : TeamClient Address) where
  -- `Connect` that returns: whether the client is connected is what it returns, and if so its socket
  -- is open. One that throws leaves it unconnected. Either way one more endpoint was tried.
  pub connect_state :
      {call : Call Bool} {c' : TeamClient Address}
      → connect parse_reply fuel env parameters c ≡ some (call, c')
      → IsConsistent c'
        × (call ≡ returned c'.connected ⊎ (call ≡ threw) × (c'.connected ≡ false))
        × (c'.endpoints ≡ c.endpoints ++ ((parameters.address, parameters.port) ∷ []))
  unfolding connect attempt_to_connect_socket attempt_to_register register_if_connected
      take_greeting take_registration_reply
  connect_state e = ground arith

  -- `Connect` sends the registration or nothing; and one that succeeds has sent it.
  pub connect_sent :
      {call : Call Bool} {c' : TeamClient Address}
      → connect parse_reply fuel env parameters c ≡ some (call, c')
      → ((c'.connected ≡ false) × (c'.sent ≡ c.sent))
        ⊎ (c'.sent
            ≡ c.sent
              ++ (registration (record {
                team_name = parameters.team_name;
                team = team_of_color parameters.team_color;
              })
                  ∷ []))
  unfolding connect attempt_to_connect_socket attempt_to_register register_if_connected
      take_greeting take_registration_reply
  connect_sent e = ground arith

  -- What the two waits came to.
  module _ {greeting reply : Option ControllerToTeam}
      (greeted : wait_for_reply parse_reply fuel env.greeting ≡ some greeting)
      (replied : wait_for_reply parse_reply fuel env.exchange.wait ≡ some reply) where
    connect_tests :
        {call : Call Bool} {c' : TeamClient Address}
        → connect parse_reply fuel env parameters c ≡ some (call, c')
        → (call ≡ returned true) ↔ (
            (env.answer ≡ connects)
            × (env.exchange.write_succeeds ≡ true)
            × (take_registration_reply greeting ≡ true)
            × (take_registration_reply reply ≡ true))
    unfolding connect attempt_to_connect_socket attempt_to_register register_if_connected
        take_greeting take_registration_reply
    connect_tests e = (ground arith, ground arith)

    -- If its two waits end, a `Connect` that ends succeeds exactly if the socket connects, the
    -- greeting is acceptable, the registration can be written and its answer is acceptable: that is,
    -- each is a controller's reply that has no status or the status OK.
    pub connect_iff :
        {call : Call Bool} {c' : TeamClient Address}
        → connect parse_reply fuel env parameters c ≡ some (call, c')
        → (call ≡ returned true) ↔ (
            (env.answer ≡ connects)
            × (env.exchange.write_succeeds ≡ true)
            × Accepts greeting
            × Accepts reply)
    connect_iff e =
        let (there, back) = connect_tests e in
        let greeting_iff = take_registration_reply_iff greeting in
        let reply_iff = take_registration_reply_iff reply in
        (
          λ h. let (s, w, g, r) = there h in (s, w, greeting_iff.0 g, reply_iff.0 r),
          λ (s, w, g, r). back (s, w, greeting_iff.1 g, reply_iff.1 r),
        )

    attempt_to_connect_socket-total :
        (answer : ConnectAnswer)
        → env.answer ≡ answer
        → (x : Bool × TeamClient Address) × (attempt_to_connect_socket parse_reply fuel env
              parameters.address parameters.port
              (record c { connected = false })
            ≡ some x)
    unfolding attempt_to_connect_socket
    attempt_to_connect_socket-total connects e =
        rw (e, attempt_to_connect_socket, greeted) (_, refl)
    attempt_to_connect_socket-total (refuses opened) e = rw (e, attempt_to_connect_socket) (_, refl)

    register_if_connected-total :
        (x : Bool × TeamClient Address)
        → (y : Call Bool × TeamClient Address) × (register_if_connected parse_reply fuel
              env.exchange parameters x
            ≡ some y)
    unfolding register_if_connected attempt_to_register
    register_if_connected-total (false, c') = (_, refl)
    register_if_connected-total (true, c') = elim (Bool-cases env.exchange.write_succeeds) [
      | inl w ↦ rw (w, attempt_to_register, replied) (_, refl)
      | inr w ↦ rw (w, attempt_to_register) (_, refl)
    ]

    -- A `Connect` whose waits end itself ends.
    pub connect-total :
        (x : Call Bool × TeamClient Address) × (connect parse_reply fuel env parameters c ≡ some x)
    unfolding connect
    connect-total =
        let (x, e) = attempt_to_connect_socket-total env.answer refl in
        let (y, f) = register_if_connected-total x in (y, rw (e, connect) f)
