-- ===== src/TeamClient/Node/Reconnect.antt =====
-- The reconnect service and `TeamClientNode::Connect`.
use text.Mathlib.Text.{◌==◌ as str_eq}
use text.Mathlib.TextEquality.{eq_iff}
use ssl_ros_bridge.Prelude.{
  ℕ, ◌≡◌, ◌⊎◌, inl, inr, Bool, Bool-cases, Option-cases, true, false, Option, none, some, List, [],
  ◌∷◌, ◌++◌, String, arith, Call, returned, threw, if◌then◌else◌, to_u16,
}
use ssl_ros_bridge.TeamClient.Messages.{ControllerToTeam, ConnectionParameters}
use ssl_ros_bridge.TeamClient.Client.{connect}
use ssl_ros_bridge.TeamClient.Client.Connect.{IsConsistent, connect_state}
use ssl_ros_bridge.TeamClient.Node.{
  TeamClientNode, NodeEnvironment, color_of_name, node_connect, handle_reconnect,
}

module _ {Address : Type 0} (parse_reply : List ℕ → Option ControllerToTeam)
    (parse_address : String → Option Address) (fuel : ℕ) (env : NodeEnvironment) where
  abbrev pub parameters_of : Address → TeamClientNode Address → ConnectionParameters Address
  parameters_of address n = record {
    address = address;
    port = to_u16 n.gc_port;
    team_name = n.team_name;
    team_color = color_of_name env.initial_color n.team_color;
  }

  pub node_connect-cases :
      (n n' : TeamClientNode Address) {call : Call Bool}
      → node_connect parse_reply parse_address fuel env n ≡ some (call, n')
      → ((n.gc_ip_address ≡ "") × (call ≡ returned true) × (n' ≡ n))
        ⊎ ((parse_address n.gc_ip_address ≡ none) × (call ≡ threw) × (n' ≡ n))
        ⊎ ((address : Address) × (parse_address n.gc_ip_address ≡ some address)
            × (connect parse_reply fuel env.connection (parameters_of address n) n.team_client
                ≡ some (call, n'.team_client))
            × (n' ≡ record n { team_client = n'.team_client }))
  unfolding node_connect
  node_connect-cases n n' e = elim (Bool-cases (str_eq n.gc_ip_address "")) [
    | inl h ↦ inl ((eq_iff n.gc_ip_address "").0 h, ground arith, ground arith)
    | inr h ↦ elim (Option-cases (parse_address n.gc_ip_address)) [
      | inl f ↦ inr (inl (f, ground arith, ground arith))
      | inr (address, f) ↦ inr (inr (address, f, ground arith, ground arith))
    ]
  ]

  -- What `Connect` of the node comes to, its parameters being those of `n`.
  abbrev pub Tried : TeamClientNode Address → TeamClientNode Address → Call Bool → Type 0
  Tried n n' call =
      ((n.gc_ip_address ≡ "") × (call ≡ returned true) × (n'.team_client ≡ n.team_client))
      ⊎ ((parse_address n.gc_ip_address ≡ none) × (call ≡ threw) × (n'.team_client ≡ n.team_client))
      ⊎ ((address : Address) × (parse_address n.gc_ip_address ≡ some address)
          × IsConsistent n'.team_client
          × (call ≡ returned n'.team_client.connected
              ⊎ (call ≡ threw) × (n'.team_client.connected ≡ false))
          × (n'.team_client.endpoints
              ≡ n.team_client.endpoints ++ ((address, to_u16 n.gc_port) ∷ [])))

  pub node_connect-Tried :
      (n n' : TeamClientNode Address) {call : Call Bool}
      → node_connect parse_reply parse_address fuel env n ≡ some (call, n')
      → Tried n n' call × (n' ≡ record n { team_client = n'.team_client })
  node_connect-Tried n n' {call} e = elim (node_connect-cases n n' e) [
    | inl (a, b, c) ↦ (inl (a, b, ground arith), ground arith)
    | inr (inl (a, b, c)) ↦ (inr (inl (a, b, ground arith)), ground arith)
    | inr (inr (address, a, b, c)) ↦
        let (ok, answer, ends) =
          connect_state parse_reply fuel env.connection (parameters_of address n) n.team_client b in
        (inr (inr (address, a, ok, answer, ends)), c)
  ]

  renamed :
      (unset : Bool) (server_address : String) (n n' : TeamClientNode Address) {call : Call Bool}
      → node_connect parse_reply parse_address fuel env
          (if unset then n else record n { gc_ip_address = server_address })
        ≡ some (call, n')
      → (n'.gc_ip_address ≡ (if unset then n.gc_ip_address else server_address))
        × (n' ≡ record n { team_client = n'.team_client; gc_ip_address = n'.gc_ip_address })
        × Tried (if unset then n else record n { gc_ip_address = server_address }) n' call
  renamed true server_address n n' e =
      let (t, same) = node_connect-Tried n n' e in (ground arith, ground arith, t)
  renamed false server_address n n' e =
      let (t, same) = node_connect-Tried (record n { gc_ip_address = server_address }) n' e in
      (ground arith, ground arith, t)

  -- A reconnect request stores the address that it names, unless that is empty, and leaves the other
  -- parameters alone. If there is no address then, the answer is success, and the client is as it
  -- was. If the text is no address, the handler throws, and the client is as it was. Otherwise one
  -- more endpoint is tried, the address with the 16 low bits of the port; the answer is whether the
  -- client is connected now, and a connected client has an open socket; a handler that throws leaves
  -- the client unconnected.
  pub handle_reconnect_lem :
      (server_address : String) (n n' : TeamClientNode Address) {call : Call Bool}
      → handle_reconnect parse_reply parse_address fuel env server_address n ≡ some (call, n')
      → (n'.gc_ip_address ≡ (if str_eq server_address "" then n.gc_ip_address else server_address))
        × (n' ≡ record n { team_client = n'.team_client; gc_ip_address = n'.gc_ip_address })
        × Tried
            (if str_eq server_address "" then n else record n { gc_ip_address = server_address })
            n'
            call
  unfolding handle_reconnect
  handle_reconnect_lem server_address n n' e =
      renamed (str_eq server_address "") server_address n n' e
