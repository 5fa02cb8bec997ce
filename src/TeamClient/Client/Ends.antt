-- ===== src/TeamClient/Client/Ends.antt =====
-- `TeamClient::Connect` runs to its end, whatever the controller does.
use ssl_ros_bridge.Prelude.{
  ℕ, ◌+◌, ◌*◌, ◌≤◌, ◌≡◌, ◌↔◌, Bool, true, Option, some, List, arith, Call, returned,
}
use ssl_ros_bridge.TeamClient.Messages.{ControllerToTeam, ConnectionParameters}
use ssl_ros_bridge.TeamClient.Wait.{Wait, wait_for_reply}
use ssl_ros_bridge.TeamClient.Wait.Loop.{wait_for_reply-total}
use ssl_ros_bridge.TeamClient.Client.{TeamClient, connects, ConnectEnvironment, connect}
use ssl_ros_bridge.TeamClient.Client.Connect.{Accepts, connect_iff, connect-total}

-- The loop sleeps at the rate of 10 Hz.
abbrev pub IsPaced : Wait → Type 0
IsPaced w = (j : ℕ) → w.start + j * 100_000_000 ≤ (w.polls j).time

wait_ends :
    (parse_reply : List ℕ → Option ControllerToTeam) (fuel : ℕ) (w : Wait)
    → IsPaced w
    → 12 ≤ fuel
    → (reply : Option ControllerToTeam) × (wait_for_reply parse_reply fuel w ≡ some reply)
wait_ends parse_reply fuel w paced enough =
    wait_for_reply-total parse_reply fuel 100_000_000 w (omega arith) paced (omega arith)

module _ {Address : Type 0} (parse_reply : List ℕ → Option ControllerToTeam) (fuel : ℕ) where
  -- If the turns of its two waits are at least a tenth of a second apart each, `Connect` ends within
  -- twelve turns of each wait, whatever the controller sends and when: with true exactly if the socket
  -- connects, the registration can be written, and both that which the first wait came to and that
  -- which the second came to are controller replies that have no status or the status OK.
  pub connect_ends :
      (env : ConnectEnvironment) (parameters : ConnectionParameters Address)
      (c : TeamClient Address)
      → IsPaced env.greeting
      → IsPaced env.exchange.wait
      → 12 ≤ fuel
      → (greeting : Option ControllerToTeam) × (reply : Option ControllerToTeam) × (call : Call
          Bool)
        × (c' : TeamClient Address) × (wait_for_reply parse_reply fuel env.greeting ≡ some greeting)
        × (wait_for_reply parse_reply fuel env.exchange.wait ≡ some reply)
        × (connect parse_reply fuel env parameters c ≡ some (call, c'))
        × ((call ≡ returned true) ↔ (
            (env.answer ≡ connects)
            × (env.exchange.write_succeeds ≡ true)
            × Accepts greeting
            × Accepts reply))
  connect_ends env parameters c greeting_paced reply_paced enough =
      let (greeting, greeted) = wait_ends parse_reply fuel env.greeting greeting_paced enough in
      let (reply, replied) = wait_ends parse_reply fuel env.exchange.wait reply_paced enough in
      let ((call, c'), ends) = connect-total parse_reply fuel env parameters c greeted replied in
      (
        greeting,
        reply,
        call,
        c',
        greeted,
        replied,
        ends,
        connect_iff parse_reply fuel env parameters c greeted replied ends,
      )
