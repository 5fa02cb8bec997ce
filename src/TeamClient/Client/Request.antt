-- ===== src/TeamClient/Client/Request.antt =====
-- The requests of `TeamClient`: what is sent, what is returned, and what changes.
use ssl_ros_bridge.Prelude.{
  ℕ, ◌≡◌, refl, ◌⊎◌, ◌↔◌, inl, inr, Bool-cases, Option-cases, true, false, Option, none, some, List,
  [], ◌∷◌, ◌++◌, String, arith, Call, returned, threw,
}
use ssl_ros_bridge.TeamClient.Messages.{
  ok, ControllerReply, ControllerToTeam, request, TeamToController, RequestResult,
}
use ssl_ros_bridge.TeamClient.Wait.{wait_for_reply}
use ssl_ros_bridge.TeamClient.Client.{
  TeamClient, Exchange, or_keep, has_ok_status, take_reply, send_request,
}

-- The answer holds a reply with the status OK.
abbrev pub HasOk : Option ControllerToTeam → Type 0
HasOk m =
    (reply : ControllerReply) × (m ≡ some (record { controller_reply = some reply }))
    × (reply.status_code ≡ some ok)

-- The token to use next.
abbrev pub token_after : Option ControllerToTeam → String → String
token_after none token = token
token_after (some m) token = elim m.controller_reply [
  | none ↦ token
  | some reply ↦ or_keep reply.next_token token
]

Answer-cases :
    (m : Option ControllerToTeam)
    → (m ≡ none)
      ⊎ (m ≡ some (record { controller_reply = none }))
      ⊎ ((r : ControllerReply) × (m ≡ some (record { controller_reply = some r })))
Answer-cases none = inl refl
Answer-cases (some m) = elim (Option-cases m.controller_reply) [
  | inl e ↦ inr (inl (ground arith))
  | inr (r, e) ↦ inr (inr (r, ground arith))
]

ok_status : (r : ControllerReply) → has_ok_status r ≡ true → r.status_code ≡ some ok
ok_status r h = ground arith

module _ {Address : Type 0} where
  take_reply_rest :
      (m : Option ControllerToTeam) (c : TeamClient Address)
      → let c' = (take_reply m c).1 in
        (c'.connected ≡ c.connected)
        × (c'.socket_open ≡ c.socket_open)
        × (c'.sent ≡ c.sent)
        × (c'.endpoints ≡ c.endpoints)
        × (c'.next_token ≡ token_after m c.next_token)
  unfolding take_reply
  take_reply_rest m c = ground arith

  take_reply-HasOk :
      (m : Option ControllerToTeam) (c : TeamClient Address)
      → ((take_reply m c).0.accepted ≡ true) ↔ HasOk m
  unfolding take_reply
  take_reply-HasOk m c = elim (Answer-cases m) [
    | inl e ↦ (λ h. absurd (ground arith), λ (r, f, s). ground arith)
    | inr (inl e) ↦ (λ h. absurd (ground arith), λ (r, f, s). ground arith)
    | inr (inr (r, e)) ↦ (λ h. (r, e, ok_status r (ground arith)), λ (r', f, s). ground arith)
  ]

module _ {Address : Type 0} (parse_reply : List ℕ → Option ControllerToTeam) (fuel : ℕ)
    (env : Exchange) (message : TeamToController) (c : TeamClient Address) where
  -- A request that cannot be written throws, and changes nothing. Any other is sent once and leaves
  -- the connection as it was; it is accepted exactly if a controller's reply came with the status OK,
  -- and then and otherwise the token is that of the reply, if it has one.
  pub send_request_lem :
      {reply : Option ControllerToTeam} {call : Call RequestResult} {c' : TeamClient Address}
      → wait_for_reply parse_reply fuel env.wait ≡ some reply
      → send_request parse_reply fuel env message c ≡ some (call, c')
      → ((env.write_succeeds ≡ false) × (call ≡ threw) × (c' ≡ c))
        ⊎ ((result : RequestResult) × (env.write_succeeds ≡ true)
            × (call ≡ returned result)
            × (c'.connected ≡ c.connected)
            × (c'.socket_open ≡ c.socket_open)
            × (c'.endpoints ≡ c.endpoints)
            × (c'.sent ≡ c.sent ++ (request message ∷ []))
            × (c'.next_token ≡ token_after reply c.next_token)
            × ((result.accepted ≡ true) ↔ HasOk reply))
  unfolding send_request
  send_request_lem {reply} {call} {c'} replied e = elim (Bool-cases env.write_succeeds) [
    | inr w ↦ inl (w, ground arith, ground arith)
    | inl w ↦
        let before = record c { sent = c.sent ++ (request message ∷ []) } in
        let (open_, same, sent, ends, token) = take_reply_rest reply before in
        inr (
          (take_reply reply before).0,
          w,
          ground arith,
          ground arith,
          ground arith,
          ground arith,
          ground arith,
          ground arith,
          take_reply-HasOk reply before,
        )
  ]

  -- A request ends whose wait ends.
  pub send_request-total :
      {reply : Option ControllerToTeam}
      → wait_for_reply parse_reply fuel env.wait ≡ some reply
      → (x : Call RequestResult × TeamClient Address) × (send_request parse_reply fuel env message c
          ≡ some x)
  unfolding send_request
  send_request-total replied = elim (Bool-cases env.write_succeeds) [
    | inl w ↦ rw (w, send_request, replied) (_, refl)
    | inr w ↦ rw (w, send_request) (_, refl)
  ]

  -- Whatever the answers, a request leaves the connection as it was, and at most it is sent.
  pub send_request_keeps :
      {call : Call RequestResult} {c' : TeamClient Address}
      → send_request parse_reply fuel env message c ≡ some (call, c')
      → (c'.connected ≡ c.connected)
        × (c'.socket_open ≡ c.socket_open)
        × ((c'.sent ≡ c.sent) ⊎ (c'.sent ≡ c.sent ++ (request message ∷ [])))
  unfolding send_request
  send_request_keeps {call} {c'} e =
      elim (Option-cases (wait_for_reply parse_reply fuel env.wait)) [
        | inr (reply, replied) ↦ elim (send_request_lem replied e) [
          | inl (w, a, b) ↦ (ground arith, ground arith, inl (ground arith))
          | inr (result, w, a, b1, b2, b3, b4, b5, b6) ↦ (b1, b2, inr b4)
        ]
        | inl never ↦ elim (Bool-cases env.write_succeeds) [
          | inl w ↦ absurd (ground arith)
          | inr w ↦ (ground arith, ground arith, inl (ground arith))
        ]
      ]
