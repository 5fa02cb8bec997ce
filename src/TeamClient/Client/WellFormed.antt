-- ===== src/TeamClient/Client/WellFormed.antt =====
-- What holds of the client from its constructor on, and that each of its operations keeps it.
use ssl_ros_bridge.Prelude.{
  ℕ, ◌≡◌, ◌≢◌, refl, sym, subst, ◌∙◌, inl, inr, Bool, true, false, Option, some, List, [], ◌∷◌,
  ◌++◌, arith, Call,
}
use ssl_ros_bridge.TeamClient.Messages.{
  ControllerToTeam, TeamToController, RequestResult, Sent, registration, request,
  ConnectionParameters,
}
use ssl_ros_bridge.TeamClient.Client.{
  TeamClient, Exchange, send_request, disconnect, connect, ConnectEnvironment, new_client,
}
use ssl_ros_bridge.TeamClient.Client.Connect.{IsConsistent, connect_sent, connect_state}
use ssl_ros_bridge.TeamClient.Client.Request.{send_request_keeps}

-- What has been written on the sockets begins with a registration.
abbrev pub StartsRegistered : List Sent → Type 0
StartsRegistered [] = Unit
StartsRegistered (registration r ∷ rest) = Unit
StartsRegistered (request r ∷ rest) = ⊥

-- A connected client has an open socket, and has sent something; and the first thing ever sent is a
-- registration.
pub record IsWellFormed {Address : Type 0} (c : TeamClient Address) : Type 0 where
  pub consistent : IsConsistent c
  pub started : StartsRegistered c.sent
  pub registered : c.connected ≡ true → c.sent ≢ []

after_registration :
    (sent : List Sent) (r : Sent)
    → StartsRegistered sent
    → StartsRegistered (r ∷ [])
    → StartsRegistered (sent ++ (r ∷ []))
after_registration [] r h k = k
after_registration (registration q ∷ rest) r h k = tt
after_registration (request _ ∷ rest) r h k = elim h [ ]

after_request :
    (sent : List Sent) (r : Sent)
    → StartsRegistered sent
    → sent ≢ []
    → StartsRegistered (sent ++ (r ∷ []))
after_request [] r h k = absurd (k refl)
after_request (registration q ∷ rest) r h k = tt
after_request (request _ ∷ rest) r h k = elim h [ ]

not_empty : (sent : List Sent) (r : Sent) → sent ++ (r ∷ []) ≢ []
not_empty [] r h = absurd (ground arith)
not_empty (q ∷ rest) r h = absurd (ground arith)

module _ {Address : Type 0} (parse_reply : List ℕ → Option ControllerToTeam) (fuel : ℕ) where
  pub send_request-IsWellFormed :
      (env : Exchange) (message : TeamToController) (c : TeamClient Address)
      {call : Call RequestResult} {c' : TeamClient Address}
      → send_request parse_reply fuel env message c ≡ some (call, c')
      → c.connected ≡ true
      → IsWellFormed c
      → IsWellFormed c'
  send_request-IsWellFormed env message c {c' = c'} e connected ok =
      let (same, socket, sent) = send_request_keeps parse_reply fuel env message c e in
      let consistent : IsConsistent c' = λ h. socket ∙ ok.consistent connected in
      elim sent [
        | inl kept ↦ record {
          consistent = consistent;
          started = subst StartsRegistered (sym kept) ok.started;
          registered = λ h empty. ok.registered connected (sym kept ∙ empty);
        }
        | inr more ↦ record {
          consistent = consistent;
          started =
              subst StartsRegistered (sym more)
                (after_request c.sent (request message) ok.started (ok.registered connected));
          registered = λ h empty. not_empty c.sent (request message) (sym more ∙ empty);
        }
      ]

  pub connect-IsWellFormed :
      (env : ConnectEnvironment) (parameters : ConnectionParameters Address)
      (c : TeamClient Address) {call : Call Bool} {c' : TeamClient Address}
      → connect parse_reply fuel env parameters c ≡ some (call, c')
      → IsWellFormed c
      → IsWellFormed c'
  connect-IsWellFormed env parameters c e ok =
      let (consistent, _, _) = connect_state parse_reply fuel env parameters c e in
      elim (connect_sent parse_reply fuel env parameters c e) [
        | inl (off, kept) ↦ record {
          consistent = consistent;
          started = subst StartsRegistered (sym kept) ok.started;
          registered = λ h. absurd (ground arith);
        }
        | inr more ↦ record {
          consistent = consistent;
          started = subst StartsRegistered (sym more) (after_registration c.sent _ ok.started tt);
          registered = λ h empty. not_empty c.sent _ (sym more ∙ empty);
        }
      ]

pub disconnect-IsWellFormed :
    {Address : Type 0} (c : TeamClient Address) → IsWellFormed c → IsWellFormed (disconnect c)
unfolding disconnect
disconnect-IsWellFormed c ok = record {
  consistent = λ h. absurd (ground arith);
  started = ok.started;
  registered = λ h. absurd (ground arith);
}

pub new_client-IsWellFormed : {Address : Type 0} → IsWellFormed (new_client {Address = Address})
new_client-IsWellFormed = record {
  consistent = λ (h : false ≡ true). absurd (ground arith);
  started = tt;
  registered = λ (h : false ≡ true). absurd (ground arith);
}
