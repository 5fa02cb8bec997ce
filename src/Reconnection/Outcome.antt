-- ===== src/Reconnection/Outcome.antt =====
-- What a packet with its reconnect request comes to, at the bridge and at the node.
use text.Mathlib.Text.{◌==◌ as str_eq}
use text.Mathlib.TextEquality.{eq_iff}
use mathlib.Core.Option.{some-injective}
use ssl_ros_bridge.Prelude.{
  ℕ, ◌≡◌, ◌≢◌, refl, sym, subst, ◌∙◌, ◌⊎◌, inl, inr, ◌↔◌, Bool, Bool-cases, Option-cases, true,
  false, Option, none, some, List, ◌∷◌, ◌++◌, String, arith, Call, returned, threw, if◌then◌else◌,
}
use ssl_ros_bridge.TeamClient.Messages.{ControllerToTeam}
use ssl_ros_bridge.TeamClient.Node.{TeamClientNode, NodeEnvironment, handle_reconnect}
use ssl_ros_bridge.TeamClient.Node.Reconnect.{Tried, handle_reconnect_lem}
use ssl_ros_bridge.GcBridge.{GcBridge, handle_reply}
use ssl_ros_bridge.GcBridge.Reconnecting.{Asks}
use ssl_ros_bridge.GcBridge.Interleaving.{packet, message_of, publish_and_request-cases}
use ssl_ros_bridge.Reconnection.{reply_of, deliver_packet}

-- From the bridge `m` it has come to `end`, which takes the client to be connected exactly if the
-- answer `connected` came in time.
abbrev pub HasHeard :
    {Message : Type 0} → GcBridge Message → Bool → Bool → GcBridge Message → Type 0
HasHeard m in_time connected end =
    (end.published ≡ m.published)
    × ((end.team_client_connected ≡ true) ↔ ((in_time ≡ true) × (connected ≡ true)))

module _ {Message : Type 0} (m : GcBridge Message) (off : m.team_client_connected ≡ false) where
  heard :
      (in_time connected : Bool)
      → HasHeard m in_time connected (handle_reply (reply_of in_time (returned connected)) m)
  unfolding handle_reply reply_of
  heard true true = (refl, (λ _. (refl, refl), λ _. refl))
  heard true false = (refl, (λ h. absurd (ground arith), λ h. absurd (ground arith)))
  heard false connected = (refl, (λ h. absurd (ground arith), λ h. absurd (ground arith)))

  unheard : (in_time : Bool) → HasHeard m in_time false (handle_reply (reply_of in_time threw) m)
  unfolding handle_reply reply_of
  unheard in_time = (refl, (λ h. absurd (ground arith), λ h. absurd (ground arith)))

module _ {Referee Message Address : Type 0} (parse_referee : List ℕ → Option Referee)
    (from_proto : Referee → Message) (parse_reply : List ℕ → Option ControllerToTeam)
    (parse_address : String → Option Address) (fuel : ℕ) where
  module _ (ready : Bool) (now : ℕ) (in_time : Bool) (env : NodeEnvironment) (sender : String)
      (buffer : List ℕ) (b : GcBridge Message) (n : TeamClientNode Address) (named : sender ≢ "")
      {address : Address} (readable : parse_address sender ≡ some address) where
    unset : str_eq sender "" ≡ false
    unset = elim (Bool-cases (str_eq sender "")) [
      | inl h ↦ absurd (named ((eq_iff sender "").0 h))
      | inr h ↦ h
    ]

    -- What the service's answer makes of the node, and the bridge of it.
    answered_lem :
        (n' : TeamClientNode Address) {call : Call Bool} (m : GcBridge Message)
        → handle_reconnect parse_reply parse_address fuel env sender n ≡ some (call, n')
        → m.team_client_connected ≡ false
        → (n'.gc_ip_address ≡ sender)
          × HasHeard m in_time n'.team_client.connected (handle_reply (reply_of in_time call) m)
    answered_lem n' {call} m e off =
        let (address_now, same, tried) =
          handle_reconnect_lem parse_reply parse_address fuel env sender n n' e in
        let tried' : Tried parse_reply parse_address fuel env (record n { gc_ip_address = sender })
            n' call =
          subst
            (λ (u : Bool).
              Tried parse_reply parse_address fuel env
                (if u then n else record n { gc_ip_address = sender }) n' call)
            unset tried in
        (
          address_now ∙ rw unset refl,
          elim tried' [
            | inl (empty, _, _) ↦ absurd (named empty)
            | inr (inl (unreadable, _, _)) ↦ absurd (ground arith)
            | inr (inr (_, _, _, inl back, _)) ↦
                rw back (heard m off in_time n'.team_client.connected)
            | inr (inr (_, _, _, inr (thrown, away), _)) ↦ rw (thrown, away) (unheard m off in_time)
          ],
        )

    abbrev published_then : List Message
    published_then =
        b.published ++ message_of parse_referee from_proto (packet ready now sender buffer)

    abbrev Outcome : GcBridge Message × TeamClientNode Address → Type 0
    Outcome (b', n') =
        (b'.published ≡ published_then)
        × (((parse_referee buffer ≢ none)
              × Asks ready now b
              × (n'.gc_ip_address ≡ sender)
              × ((b'.team_client_connected ≡ true)
                  ↔ ((in_time ≡ true) × (n'.team_client.connected ≡ true))))
            ⊎ (((parse_referee buffer ≡ none) ⊎ (Asks ready now b → ⊥))
                × (b'.team_client_connected ≡ b.team_client_connected)
                × (n' ≡ n)))

    abbrev delivered : Option (GcBridge Message × TeamClientNode Address)
    delivered =
        deliver_packet parse_referee from_proto parse_reply parse_address fuel ready now in_time env
          sender buffer (b, n)

    -- A packet from a sender whose address is not empty and can be read, when the reconnect service
    -- that it asks is the node's and ends: it is published, if it can be parsed. If it can be, the
    -- client is not taken to be connected, the service is there and the last attempt is a second or
    -- more ago, then the node has the sender's address, and the bridge takes the client to be
    -- connected exactly if the answer came in time and the node's client is connected. Else the bridge
    -- thinks of the client as before, and the node is as it was.
    pub deliver_packet_lem :
        (b' : GcBridge Message) (n' : TeamClientNode Address)
        → deliver_packet parse_referee from_proto parse_reply parse_address fuel ready now in_time
            env sender buffer
            (b, n)
          ≡ some (b', n')
        → (b'.published
            ≡ b.published ++ message_of parse_referee from_proto (packet ready now sender buffer))
          × (((parse_referee buffer ≢ none)
                × Asks ready now b
                × (n'.gc_ip_address ≡ sender)
                × ((b'.team_client_connected ≡ true)
                    ↔ ((in_time ≡ true) × (n'.team_client.connected ≡ true))))
              ⊎ (((parse_referee buffer ≡ none) ⊎ (Asks ready now b → ⊥))
                  × (b'.team_client_connected ≡ b.team_client_connected)
                  × (n' ≡ n)))
    unfolding deliver_packet
    deliver_packet_lem b' n' e =
        elim (publish_and_request-cases parse_referee from_proto ready now sender buffer b) [
          | inl (parsed, asks, awaits, g) ↦
              elim (Option-cases (handle_reconnect parse_reply parse_address fuel env sender n)) [
                | inl f ↦
                    let stuck : delivered ≡ none = rw (deliver_packet, awaits, f) refl in
                    absurd (ground arith)
                | inr ((call, n''), f) ↦
                    let m : GcBridge Message = record b {
                      last_reconnect_attempt_time = now;
                      published = published_then;
                      requests = (now, sender) ∷ b.requests;
                    } in
                    let asked : delivered ≡ some (handle_reply (reply_of in_time call) m, n'') =
                      rw (deliver_packet, awaits, f, g) refl in
                    let (there, (kept, agree)) = answered_lem n'' m f asks.0 in
                    subst Outcome (some-injective _ _ (sym asked ∙ e))
                      (kept, inl (parsed, asks, there, agree))
              ]
          | inr (quiet, rests, g) ↦
              let left : delivered ≡ some (record b { published = published_then }, n) =
                rw (deliver_packet, rests, g) refl in
              subst Outcome (some-injective _ _ (sym left ∙ e)) (refl, inr (quiet, refl, refl))
        ]
