-- ===== src/TeamClient/Tests.antt =====
-- Runs of the client against the controller of Examples.antt.
use ssl_ros_bridge.Prelude.{
  Bool, Call, ℕ, zero, suc, ◌+◌, ◌≡◌, refl, ◌⊎◌, ◌↔◌, true, false, Option, some, [], ◌∷◌, ◌++◌,
  arith, returned, threw, ◌<◌, inl, ◌≢◌,
}
use ssl_ros_bridge.TeamClient.Messages.{
  ControllerToTeam, ControllerReply, Team, auto_color, registration,
}
use ssl_ros_bridge.TeamClient.Wait.{wait_for_reply, timeout_ns}
use ssl_ros_bridge.TeamClient.Wait.Loop.{IsQuiet, Ends, wait_for_reply-total, wait_for_reply_first}
use ssl_ros_bridge.TeamClient.Client.Effect.{Names, GoesOnWith, connect_effect}
use ssl_ros_bridge.TeamClient.Client.Ends.{connect_ends}
use ssl_ros_bridge.TeamClient.Client.{TeamClient, connects, new_client, connect}
use ssl_ros_bridge.TeamClient.Client.Connect.{Accepts, IsConsistent, connect_state, connect_iff}
use ssl_ros_bridge.TeamClient.Examples.{
  parse_ok, poll, answer, environment, parameters, connected, waits, connects_ok,
}

wait_for_reply-total_example :
    (reply : Option ControllerToTeam) × (wait_for_reply parse_ok 12 answer ≡ some reply)
wait_for_reply-total_example =
    wait_for_reply-total parse_ok 12 100_000_000 answer (omega arith) (λ j. omega arith)
      (omega arith)

first-IsQuiet : (j : ℕ) → j < 1 → IsQuiet parse_ok (0 + timeout_ns) (poll (0 + j))
first-IsQuiet zero h = (omega arith, λ e. absurd (ground arith), refl)
first-IsQuiet (suc j) h = absurd (omega arith)

second-Ends : Ends parse_ok (0 + timeout_ns) (poll (0 + 1)) (parse_ok [])
second-Ends =
    inl (omega arith, λ e. absurd (ground arith), omega arith, λ e. absurd (ground arith), refl)

wait_for_reply_first_example : wait_for_reply parse_ok 12 answer ≡ some (parse_ok [])
wait_for_reply_first_example =
    wait_for_reply_first parse_ok 1 12 answer (parse_ok []) first-IsQuiet second-Ends (omega arith)

connect_state_example :
    IsConsistent connected
    × (returned true ≡ returned true ⊎ (returned true ≡ threw) × (true ≡ false))
    × (connected.endpoints ≡ (new_client {Address = ℕ}).endpoints ++ ((7, 10008) ∷ []))
connect_state_example = connect_state parse_ok 12 environment parameters new_client connects_ok

connect_iff_example : (returned true ≡ returned true) ↔ (
    (environment.answer ≡ connects) × (true ≡ true) × Accepts (parse_ok []) × Accepts (parse_ok []))
connect_iff_example =
    connect_iff parse_ok 12 environment parameters new_client waits waits connects_ok

abbrev came_back : Option ControllerToTeam
came_back = parse_ok []

connect_effect_example :
    ((reply : ControllerReply) × (environment.answer ≡ connects)
      × (came_back ≡ some (record { controller_reply = some reply }))
      × Accepts came_back
      × GoesOnWith reply "" connected.next_token
      × (((true ≡ true)
            × (team : Option Team) × Names auto_color team
            × (connected.sent
                ≡ [] ++ (registration (record { team_name = "Test Team"; team = team }) ∷ [])))
          ⊎ ((true ≡ false) × (returned true ≡ threw) × (connected.sent ≡ []))))
    ⊎ (((environment.answer ≢ connects) ⊎ (Accepts came_back → ⊥))
        × (returned true ≡ returned false)
        × (connected.next_token ≡ "")
        × (connected.sent ≡ []))
connect_effect_example =
    connect_effect parse_ok 12 environment parameters new_client waits connects_ok

connect_ends_example :
    (greeting : Option ControllerToTeam) × (reply : Option ControllerToTeam) × (call : Call Bool)
    × (c' : TeamClient ℕ) × (wait_for_reply parse_ok 12 environment.greeting ≡ some greeting)
    × (wait_for_reply parse_ok 12 environment.exchange.wait ≡ some reply)
    × (connect parse_ok 12 environment parameters new_client ≡ some (call, c'))
    × ((call ≡ returned true)
        ↔ ((environment.answer ≡ connects) × (true ≡ true) × Accepts greeting × Accepts reply))
connect_ends_example =
    connect_ends parse_ok 12 environment parameters new_client (λ j. omega arith) (λ j. omega arith)
      (omega arith)
