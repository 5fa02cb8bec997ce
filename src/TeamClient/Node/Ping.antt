-- ===== src/TeamClient/Node/Ping.antt =====
-- `PingCallback`: what is published, and when the client is disconnected.
use ssl_ros_bridge.Prelude.{
  ℕ, ◌≡◌, ◌⊎◌, ◌↔◌, inl, inr, Bool-cases, Option-cases, true, false, Option, some, List, [], ◌∷◌,
  ◌++◌, arith, Call, returned, threw, ◌-◌, if◌then◌else◌,
}
use ssl_ros_bridge.TeamClient.Messages.{ControllerToTeam, TeamToController, RequestResult, ping}
use ssl_ros_bridge.TeamClient.Wait.{wait_for_reply}
use ssl_ros_bridge.TeamClient.Client.{
  TeamClient, Exchange, send_request, ping_controller, with_time, disconnect,
}
use ssl_ros_bridge.TeamClient.Client.Request.{HasOk, send_request_lem}
use ssl_ros_bridge.TeamClient.Node.{TeamClientNode, ConnectionStatus, ping_callback, after_ping}

abbrev pub ping_message : TeamToController
ping_message = record { msg = some (ping true) }

module _ {Address : Type 0} (parse_reply : List ℕ → Option ControllerToTeam) (fuel : ℕ)
    (env : Exchange) (send_time end_time : ℕ) (n n' : TeamClientNode Address) where
  pub ping_callback-cases :
      {call : Call (Unit {0})}
      → ping_callback parse_reply fuel env send_time end_time n ≡ some (call, n')
      → ((n.team_client.connected ≡ false)
          × (call ≡ returned tt)
          × (n' ≡ record n {
            published = n.published ++ (record { connected = false; ping_ns = 0 } ∷ []);
          }))
        ⊎ ((result : Call RequestResult) × (c : TeamClient Address) × (n.team_client.connected
              ≡ true)
            × (send_request parse_reply fuel env ping_message n.team_client ≡ some (result, c))
            × (after_ping n (with_time (end_time - send_time) (result, c)) ≡ (call, n')))
  unfolding ping_callback ping_controller
  ping_callback-cases e = elim (Bool-cases n.team_client.connected) [
    | inr h ↦ inl (h, ground arith, ground arith)
    | inl h ↦ elim (Option-cases (send_request parse_reply fuel env ping_message n.team_client)) [
      | inl f ↦ absurd (ground arith)
      | inr ((result, c), f) ↦ inr (result, c, h, f, ground arith)
    ]
  ]

  -- If the wait for the reply ends: a callback that returns publishes one status, which says what the client is then: connected
  -- exactly if it was before and the reply to the ping has the status OK. A client that loses its
  -- connection so has its socket closed, and one that keeps it keeps the socket. A connected client
  -- that cannot write the ping throws: it publishes nothing and the node stays as it was.
  pub ping_callback_lem :
      {reply : Option ControllerToTeam} {call : Call (Unit {0})}
      → wait_for_reply parse_reply fuel env.wait ≡ some reply
      → ping_callback parse_reply fuel env send_time end_time n ≡ some (call, n')
      → ((n.team_client.connected ≡ true)
          × (env.write_succeeds ≡ false)
          × (call ≡ threw)
          × (n' ≡ n))
        ⊎ ((status : ConnectionStatus) × (call ≡ returned tt)
            × (n'.published ≡ n.published ++ (status ∷ []))
            × (status.connected ≡ n'.team_client.connected)
            × ((status.connected ≡ true) ↔ ((n.team_client.connected ≡ true) × HasOk reply))
            × (n'.team_client.socket_open ≡ (
                if n.team_client.connected
                then (if status.connected then n.team_client.socket_open else false)
                else n.team_client.socket_open)))
  unfolding after_ping disconnect
  ping_callback_lem {reply} {call} replied e = elim (ping_callback-cases e) [
    | inl (h, a, b) ↦ inr (
      record { connected = false; ping_ns = 0 },
      a,
      ground arith,
      ground arith,
      (λ f. absurd (ground arith), λ (f, g). absurd (ground arith)),
      ground arith,
    )
    | inr (result, c, h, f, g) ↦
        elim (send_request_lem parse_reply fuel env ping_message n.team_client replied f) [
          | inl (w, t, same) ↦ inl (h, w, ground arith, ground arith)
          | inr (r, w, t, a1, a2, a3, a4, a5, (there, back)) ↦ inr (
            record { connected = r.accepted; ping_ns = end_time - send_time },
            ground arith,
            ground arith,
            elim (Bool-cases r.accepted) [ inl k ↦ ground arith | inr k ↦ ground arith ],
            (λ f. (h, there f), λ (f, g). back g),
            elim (Bool-cases r.accepted) [ inl k ↦ ground arith | inr k ↦ ground arith ],
          )
        ]
  ]
