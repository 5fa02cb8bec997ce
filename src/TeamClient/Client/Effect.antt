-- ===== src/TeamClient/Client/Effect.antt =====
-- What `TeamClient::Connect` sends, and which token it goes on with.
use ssl_ros_bridge.Prelude.{
  ℕ, ◌≡◌, ◌≢◌, refl, ◌⊎◌, inl, inr, Bool, Bool-cases, true, false, Option, none, some, List, [],
  ◌∷◌, ◌++◌, String, arith, Call, returned, threw,
}
use ssl_ros_bridge.TeamClient.Messages.{
  Team, yellow, blue, TeamColor, blue_color, yellow_color, auto_color, ControllerReply,
  ControllerToTeam, registration, ConnectionParameters,
}
use ssl_ros_bridge.TeamClient.Wait.{wait_for_reply}
use ssl_ros_bridge.TeamClient.Client.{
  TeamClient, ConnectAnswer, connects, refuses, ConnectEnvironment, or_keep, team_of_color,
  take_greeting, take_registration_reply, attempt_to_connect_socket, attempt_to_register,
  register_if_connected, connect,
}
use ssl_ros_bridge.TeamClient.Client.Connect.{Accepts, Accepts-cases, good_status}

-- A registration names its team: the blue or the yellow one by its color, none if the color is left to
-- the controller.
abbrev pub Names : TeamColor → Option Team → Type 0
Names color team =
    (color ≡ blue_color → team ≡ some blue)
    × (color ≡ yellow_color → team ≡ some yellow)
    × (color ≡ auto_color → team ≡ none)

team_of_color-Names : (color : TeamColor) → Names color (team_of_color color)
team_of_color-Names blue_color = (λ h. refl, λ h. absurd (ground arith), λ h. absurd (ground arith))
team_of_color-Names yellow_color =
    (λ h. absurd (ground arith), λ h. refl, λ h. absurd (ground arith))
team_of_color-Names auto_color = (λ h. absurd (ground arith), λ h. absurd (ground arith), λ h. refl)

-- The token to go on with after a greeting: its own, or the one before.
abbrev pub GoesOnWith : ControllerReply → String → String → Type 0
GoesOnWith reply before after =
    ((t : String) → reply.next_token ≡ some t → after ≡ t)
    × (reply.next_token ≡ none → after ≡ before)

or_keep-GoesOnWith :
    (reply : ControllerReply) (before : String)
    → GoesOnWith reply before (or_keep reply.next_token before)
or_keep-GoesOnWith reply before = (λ t h. rw h refl, λ h. rw h refl)

ConnectAnswer-cases :
    (a : ConnectAnswer) → (a ≡ connects) ⊎ ((leaves_open : Bool) × (a ≡ refuses leaves_open))
ConnectAnswer-cases connects = inl refl
ConnectAnswer-cases (refuses leaves_open) = inr (leaves_open, refl)

module _ {Address : Type 0} (parse_reply : List ℕ → Option ControllerToTeam) (fuel : ℕ)
    (env : ConnectEnvironment) (parameters : ConnectionParameters Address)
    (c : TeamClient Address) where
  -- What a Connect that ends does is settled by what its first wait came to. If the socket connects
  -- and that is a greeting with no status or the status OK, Connect takes the greeting's token, if
  -- there is one, and sends one registration, with the team's name and its color's team, or throws if
  -- that cannot be written; else it returns false, sends nothing and keeps its token.
  pub connect_effect :
      {call : Call Bool} {c' : TeamClient Address} {greeting : Option ControllerToTeam}
      → wait_for_reply parse_reply fuel env.greeting ≡ some greeting
      → connect parse_reply fuel env parameters c ≡ some (call, c')
      → ((reply : ControllerReply) × (env.answer ≡ connects)
          × (greeting ≡ some (record { controller_reply = some reply }))
          × Accepts greeting
          × GoesOnWith reply c.next_token c'.next_token
          × (((env.exchange.write_succeeds ≡ true)
                × (team : Option Team) × Names parameters.team_color team
                × (c'.sent
                    ≡ c.sent
                      ++ (registration (record { team_name = parameters.team_name; team = team })
                          ∷ [])))
              ⊎ ((env.exchange.write_succeeds ≡ false) × (call ≡ threw) × (c'.sent ≡ c.sent))))
        ⊎ (((env.answer ≢ connects) ⊎ (Accepts greeting → ⊥))
            × (call ≡ returned false)
            × (c'.next_token ≡ c.next_token)
            × (c'.sent ≡ c.sent))
  unfolding connect attempt_to_connect_socket attempt_to_register register_if_connected
      take_greeting take_registration_reply
  connect_effect {call} {c'} {greeting} greeted e = elim (ConnectAnswer-cases env.answer) [
    | inr (leaves_open, refused) ↦
        inr (inl (λ h. absurd (ground arith)), ground arith, ground arith, ground arith)
    | inl joined ↦ elim (Accepts-cases greeting) [
      | inl (r, said, good) ↦ elim (Bool-cases env.exchange.write_succeeds) [
        | inl w ↦
            let token : c'.next_token ≡ or_keep r.next_token c.next_token = ground arith in
            inl (
              r,
              joined,
              said,
              (r, said, good_status r good),
              rw token (or_keep-GoesOnWith r c.next_token),
              inl (
                w,
                team_of_color parameters.team_color,
                team_of_color-Names parameters.team_color,
                ground arith,
              ),
            )
        | inr w ↦
            let token : c'.next_token ≡ or_keep r.next_token c.next_token = ground arith in
            inl (
              r,
              joined,
              said,
              (r, said, good_status r good),
              rw token (or_keep-GoesOnWith r c.next_token),
              inr (w, ground arith, ground arith),
            )
      ]
      | inr (inl (r, said, bad)) ↦
          inr (inr (λ (r', e', s). absurd (ground arith)), ground arith, ground arith, ground arith)
      | inr (inr (inl nothing)) ↦
          inr (inr (λ (r', e', s). absurd (ground arith)), ground arith, ground arith, ground arith)
      | inr (inr (inr other)) ↦
          inr (inr (λ (r', e', s). absurd (ground arith)), ground arith, ground arith, ground arith)
    ]
  ]
