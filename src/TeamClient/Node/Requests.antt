-- ===== src/TeamClient/Node/Requests.antt =====
-- The three services that pass a request on to the game controller.
use ssl_ros_bridge.Prelude.{
  ℕ, ℤ, ◌≡◌, refl, sym, ◌∙◌, ◌⊎◌, ◌↔◌, inl, inr, Bool-cases, true, false, Option, some, List, [],
  ◌∷◌, ◌++◌, arith, Call, returned, threw, ◌==◌, if◌then◌else◌, Option-cases,
}
use ssl_ros_bridge.TeamClient.Messages.{
  ControllerToTeam, request, TeamMessage, desired_keeper, substitute_bot, advantage_choice,
  AdvantageChoiceOption, stop, continue, RequestResult, TeamToController,
}
use ssl_ros_bridge.TeamClient.Wait.{wait_for_reply}
use ssl_ros_bridge.TeamClient.Client.{
  TeamClient, Exchange, send_request, set_desired_keeper, request_bot_substitution,
  set_advantage_choice, advantage_of_option,
}
use ssl_ros_bridge.TeamClient.Client.Request.{HasOk, token_after, send_request_lem}
use ssl_ros_bridge.TeamClient.Node.{
  TeamClientNode, Response, not_connected, serve, respond, option_of_choice,
  handle_set_desired_keeper, handle_substitute_bot, handle_set_advantage_choice,
}

-- The message that a service call stands for: what the handler is called with, as data.
pub data ServiceCall : Type 0 where
  keeper_call : ℤ → ServiceCall
  substitute_call : ServiceCall
  choice_call : ℕ → ServiceCall

-- What goes to the game controller. A choice that is no constant of the service is the value that
-- the variable had.
unfoldable pub message_of : AdvantageChoiceOption → ServiceCall → TeamMessage
message_of initial (keeper_call keeper) = desired_keeper keeper
message_of initial substitute_call = substitute_bot true
message_of initial (choice_call choice) =
    if choice == 0
    then advantage_choice stop
    else if choice == 1
    then advantage_choice continue
    else advantage_choice (advantage_of_option initial)

module _ {Address : Type 0} (parse_reply : List ℕ → Option ControllerToTeam) (fuel : ℕ)
    (env : Exchange) (initial : AdvantageChoiceOption) where
  unfoldable pub handle_call :
      ServiceCall → TeamClientNode Address → Option (Call Response × TeamClientNode Address)
  handle_call (keeper_call keeper) = handle_set_desired_keeper parse_reply fuel env keeper
  handle_call substitute_call = handle_substitute_bot parse_reply fuel env
  handle_call (choice_call choice) = handle_set_advantage_choice parse_reply fuel env initial choice

  pub handle_call-serve :
      (s : ServiceCall) (n : TeamClientNode Address)
      → handle_call s n
        ≡ serve (send_request parse_reply fuel env (record { msg = some (message_of initial s) })) n
  unfolding handle_call handle_set_desired_keeper handle_substitute_bot handle_set_advantage_choice
      set_desired_keeper request_bot_substitution set_advantage_choice message_of option_of_choice
  handle_call-serve (keeper_call keeper) n = refl
  handle_call-serve substitute_call n = refl
  handle_call-serve (choice_call choice) n = elim (Bool-cases (choice == 0)) [
    | inl e ↦ rw (option_of_choice, e) refl
    | inr e ↦ elim (Bool-cases (choice == 1)) [
      | inl f ↦ rw (option_of_choice, e, f) refl
      | inr f ↦ rw (option_of_choice, e, f) refl
    ]
  ]

  pub serve-cases :
      (send : TeamClient Address → Option (Call RequestResult × TeamClient Address))
      (n n' : TeamClientNode Address) {call : Call Response}
      → serve send n ≡ some (call, n')
      → ((n.team_client.connected ≡ false) × (call ≡ returned not_connected) × (n' ≡ n))
        ⊎ ((result : Call RequestResult) × (c : TeamClient Address) × (n.team_client.connected
              ≡ true)
            × (send n.team_client ≡ some (result, c))
            × (respond n (result, c) ≡ (call, n')))
  unfolding serve
  serve-cases send n n' e = elim (Bool-cases n.team_client.connected) [
    | inr h ↦ inl (h, ground arith, ground arith)
    | inl h ↦ elim (Option-cases (send n.team_client)) [
      | inl f ↦ absurd (ground arith)
      | inr ((result, c), f) ↦ inr (result, c, h, f, ground arith)
    ]
  ]

  -- Whatever the service, if the wait for its reply ends: a node that is not connected refuses, and nothing changes or is sent. A
  -- connected one sends the one message that the call stands for, and answers with success exactly
  -- if the controller's reply has the status OK; the connection stays as it was, and so do the
  -- parameters. If the message cannot be written the handler throws, and nothing changes.
  pub handle_call_lem :
      (s : ServiceCall) (n n' : TeamClientNode Address) {reply : Option ControllerToTeam}
      {call : Call Response}
      → wait_for_reply parse_reply fuel env.wait ≡ some reply
      → handle_call s n ≡ some (call, n')
      → ((n.team_client.connected ≡ false) × (call ≡ returned not_connected) × (n' ≡ n))
        ⊎ ((n.team_client.connected ≡ true)
            × (env.write_succeeds ≡ false)
            × (call ≡ threw)
            × (n' ≡ n))
        ⊎ ((response : Response) × (n.team_client.connected ≡ true)
            × (call ≡ returned response)
            × ((response.success ≡ true) ↔ HasOk reply)
            × (n'.team_client.sent
                ≡ n.team_client.sent
                  ++ (request (record { msg = some (message_of initial s) }) ∷ []))
            × (n' ≡ record n {
              team_client = record n.team_client {
                sent = n'.team_client.sent;
                next_token = token_after reply n.team_client.next_token;
              };
            }))
  handle_call_lem s n n' {reply} {call} replied e =
      let message : TeamToController = record { msg = some (message_of initial s) } in
      let send = send_request parse_reply fuel env message in
      let served : (serve send n ≡ some (call, n')) = sym (handle_call-serve s n) ∙ e in
      elim (serve-cases send n n' served) [
        | inl refused ↦ inl refused
        | inr (result, c, h, f, g) ↦
            elim (send_request_lem parse_reply fuel env message n.team_client replied f) [
              | inl (w, t, same) ↦ inr (inl (h, w, ground arith, ground arith))
              | inr (r, w, t, a1, a2, a3, a4, a5, a6) ↦ inr (
                  inr (
                    record { success = r.accepted; reason = r.reason },
                    h,
                    ground arith,
                    a6,
                    ground arith,
                    ground arith,
                  ))
            ]
      ]
