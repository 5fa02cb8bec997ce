-- ===== src/TeamClient/Node/Run.antt =====
-- A run of the node: its constructor, then any sequence of service calls and timer callbacks.
use text.Mathlib.Text.{◌==◌ as str_eq}
use ssl_ros_bridge.Prelude.{
  ℕ, ℤ, ◌≡◌, refl, sym, subst, ◌∙◌, inl, inr, Bool, Bool-cases, Option-cases, true, false, Option,
  none, some, List, [], ◌∷◌, String, arith, Call, returned, threw, ◌>>=◌, if◌then◌else◌,
}
use ssl_ros_bridge.TeamClient.Messages.{
  ControllerToTeam, TeamToController, RequestResult, PingResult, AdvantageChoiceOption,
}
use ssl_ros_bridge.TeamClient.Client.{TeamClient, Exchange, send_request}
use ssl_ros_bridge.TeamClient.Client.WellFormed.{
  IsWellFormed, send_request-IsWellFormed, connect-IsWellFormed, disconnect-IsWellFormed,
  new_client-IsWellFormed,
}
use ssl_ros_bridge.TeamClient.Node.{
  TeamClientNode, NodeEnvironment, ping_callback, after_ping, new_node, handle_reconnect, respond,
  node_connect, Response,
}
use ssl_ros_bridge.TeamClient.Node.Requests.{
  ServiceCall, handle_call, handle_call-serve, serve-cases, message_of,
}
use ssl_ros_bridge.TeamClient.Node.Reconnect.{node_connect-cases}
use ssl_ros_bridge.TeamClient.Node.Ping.{ping_callback-cases, ping_message}

-- A callback of the node with what it meets.
pub data Event : Type 0 where
  called : Exchange → AdvantageChoiceOption → ServiceCall → Event
  reconnect_called : NodeEnvironment → String → Event
  timer_fired : Exchange → ℕ → ℕ → Event

module _ {Address : Type 0} where
  carry :
      (n n' : TeamClientNode Address)
      → n ≡ n'
      → IsWellFormed n.team_client
      → IsWellFormed n'.team_client
  carry n n' e ok = subst (λ (m : TeamClientNode Address). IsWellFormed m.team_client) e ok

  left_behind :
      {A : Type 0} (result : Option (A × TeamClientNode Address)) (n' : TeamClientNode Address)
      → (do r ← result; some r.1) ≡ some n'
      → ((answer : A) (m : TeamClientNode Address)
          → result ≡ some (answer, m)
          → IsWellFormed m.team_client)
      → IsWellFormed n'.team_client
  left_behind none n' e ok = absurd (ground arith)
  left_behind (some (answer, m)) n' e ok = carry m n' (ground arith) (ok answer m refl)

  respond_client :
      (n n' : TeamClientNode Address) (c : TeamClient Address) (result : Call RequestResult)
      {call : Call Response}
      → respond n (result, c) ≡ (call, n')
      → c ≡ n'.team_client
  respond_client n n' c threw e = ground arith
  respond_client n n' c (returned r) e = ground arith

  after_ping-IsWellFormed :
      (n n' : TeamClientNode Address) (c : TeamClient Address) (result : Call PingResult)
      {call : Call (Unit {0})}
      → after_ping n (result, c) ≡ (call, n')
      → IsWellFormed c
      → IsWellFormed n'.team_client
  unfolding after_ping
  after_ping-IsWellFormed n n' c threw e ok = subst IsWellFormed (ground arith) ok
  after_ping-IsWellFormed n n' c (returned r) e ok = elim (Bool-cases r.request_result.accepted) [
    | inl h ↦ subst IsWellFormed (ground arith) ok
    | inr h ↦ subst IsWellFormed (ground arith) (disconnect-IsWellFormed c ok)
  ]

module _ {Address : Type 0} (parse_reply : List ℕ → Option ControllerToTeam)
    (parse_address : String → Option Address) (fuel : ℕ) where
  node_connect-IsWellFormed :
      (env : NodeEnvironment) (n n' : TeamClientNode Address) {call : Call Bool}
      → node_connect parse_reply parse_address fuel env n ≡ some (call, n')
      → IsWellFormed n.team_client
      → IsWellFormed n'.team_client
  node_connect-IsWellFormed env n n' e ok =
      elim (node_connect-cases parse_reply parse_address fuel env n n' e) [
        | inl (_, _, same) ↦ subst (λ m. IsWellFormed m.team_client) (sym same) ok
        | inr (inl (_, _, same)) ↦ subst (λ m. IsWellFormed m.team_client) (sym same) ok
        | inr (inr (address, _, connects, _)) ↦
            connect-IsWellFormed parse_reply fuel env.connection _ n.team_client connects ok
      ]

  handle_call-IsWellFormed :
      (env : Exchange) (initial : AdvantageChoiceOption) (s : ServiceCall)
      (n n' : TeamClientNode Address) {call : Call Response}
      → handle_call parse_reply fuel env initial s n ≡ some (call, n')
      → IsWellFormed n.team_client
      → IsWellFormed n'.team_client
  handle_call-IsWellFormed env initial s n n' e ok =
      let message : TeamToController = record { msg = some (message_of initial s) } in
      elim (serve-cases parse_reply fuel env initial (send_request parse_reply fuel env message) n
        n' (sym (handle_call-serve parse_reply fuel env initial s n) ∙ e)) [
          | inl (_, _, same) ↦ subst (λ m. IsWellFormed m.team_client) (sym same) ok
          | inr (result, c, connected, sent, answered) ↦
              let ok' =
                send_request-IsWellFormed parse_reply fuel env message n.team_client sent connected
                  ok in
              subst IsWellFormed (respond_client n n' c result answered) ok'
        ]

  ping_callback-IsWellFormed :
      (env : Exchange) (send_time end_time : ℕ) (n n' : TeamClientNode Address)
      {call : Call (Unit {0})}
      → ping_callback parse_reply fuel env send_time end_time n ≡ some (call, n')
      → IsWellFormed n.team_client
      → IsWellFormed n'.team_client
  ping_callback-IsWellFormed env send_time end_time n n' e ok =
      elim (ping_callback-cases parse_reply fuel env send_time end_time n n' e) [
        | inl (_, _, same) ↦ subst (λ m. IsWellFormed m.team_client) (sym same) ok
        | inr (threw, c, connected, sent, answered) ↦
            after_ping-IsWellFormed n n' c threw answered (
              send_request-IsWellFormed parse_reply fuel env ping_message n.team_client sent
                connected ok)
        | inr (returned r, c, connected, sent, answered) ↦
            after_ping-IsWellFormed n n' c _ answered (
              send_request-IsWellFormed parse_reply fuel env ping_message n.team_client sent
                connected ok)
      ]

  renamed_ok :
      (env : NodeEnvironment) (server_address : String) (n n' : TeamClientNode Address)
      (unset : Bool) {call : Call Bool}
      → node_connect parse_reply parse_address fuel env
          (if unset then n else record n { gc_ip_address = server_address })
        ≡ some (call, n')
      → IsWellFormed n.team_client
      → IsWellFormed n'.team_client
  renamed_ok env server_address n n' true e ok = node_connect-IsWellFormed env n n' e ok
  renamed_ok env server_address n n' false e ok =
      node_connect-IsWellFormed env (record n { gc_ip_address = server_address }) n' e ok

  -- What a callback leaves behind, whether it returns or throws.
  abbrev pub step : Event → TeamClientNode Address → Option (TeamClientNode Address)
  step (called env initial s) n = do
    result ← handle_call parse_reply fuel env initial s n
    some result.1
  step (reconnect_called env server_address) n = do
    result ← handle_reconnect parse_reply parse_address fuel env server_address n
    some result.1
  step (timer_fired env send_time end_time) n = do
    result ← ping_callback parse_reply fuel env send_time end_time n
    some result.1

  abbrev pub steps : List Event → TeamClientNode Address → Option (TeamClientNode Address)
  steps [] n = some n
  steps (event ∷ events) n = do n' ← step event n; steps events n'

  step-IsWellFormed :
      (event : Event) (n n' : TeamClientNode Address)
      → step event n ≡ some n'
      → IsWellFormed n.team_client
      → IsWellFormed n'.team_client
  unfolding handle_reconnect
  step-IsWellFormed (called env initial s) n n' e ok =
      left_behind (handle_call parse_reply fuel env initial s n) n' e
        (λ call m f. handle_call-IsWellFormed env initial s n m f ok)
  step-IsWellFormed (reconnect_called env server_address) n n' e ok =
      left_behind (handle_reconnect parse_reply parse_address fuel env server_address n) n' e
        (λ call m f. renamed_ok env server_address n m (str_eq server_address "") f ok)
  step-IsWellFormed (timer_fired env send_time end_time) n n' e ok =
      left_behind (ping_callback parse_reply fuel env send_time end_time n) n' e
        (λ call m f. ping_callback-IsWellFormed env send_time end_time n m f ok)

  steps-IsWellFormed :
      (events : List Event) (n n' : TeamClientNode Address)
      → steps events n ≡ some n'
      → IsWellFormed n.team_client
      → IsWellFormed n'.team_client
  steps-IsWellFormed [] n n' e ok = carry n n' (ground arith) ok
  steps-IsWellFormed (event ∷ events) n n' e ok = elim (Option-cases (step event n)) [
    | inl f ↦ absurd (ground arith)
    | inr (m, f) ↦ steps-IsWellFormed events m n' (ground arith) (step-IsWellFormed event n m f ok)
  ]

  -- Whatever services are called and however the timer, the sockets and the clock behave, once the
  -- node has been constructed: a connected client has an open socket and has sent something, and the
  -- first message that was ever sent is a registration.
  pub run-IsWellFormed :
      (env : NodeEnvironment) (address : String) (port : ℤ) (name color : String)
      (events : List Event) {call : Call Bool} {n n' : TeamClientNode Address}
      → new_node parse_reply parse_address fuel env address port name color ≡ some (call, n)
      → steps events n ≡ some n'
      → IsWellFormed n'.team_client
  unfolding new_node
  run-IsWellFormed env address port name color events {n = n} {n' = n'} made run =
      steps-IsWellFormed events n n' run
        (node_connect-IsWellFormed env _ n made new_client-IsWellFormed)
