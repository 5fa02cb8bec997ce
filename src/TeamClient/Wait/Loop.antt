-- ===== src/TeamClient/Wait/Loop.antt =====
-- The loop of `WaitForReply` ends, and its first turn that is not idle decides.
use native.Mathlib.Nat.{lt-mul-div-succ, add-zero}
use ssl_ros_bridge.Prelude.{
  ℕ, zero, suc, ◌+◌, ◌*◌, ◌/◌, ◌≤◌, ◌<◌, ◌≡◌, ◌≢◌, refl, ◌⊎◌, inl, inr, Option, none, some, List,
  false, arith,
}
use ssl_ros_bridge.TeamClient.Messages.{ControllerToTeam}
use ssl_ros_bridge.TeamClient.Wait.{
  ErrorCode, success, eof, other_error, is_fatal, Poll, Wait, Turn, decided, idle, timeout_ns, turn,
  wait_loop, wait_for_reply,
}

suc-add : (k j : ℕ) → suc k + j ≡ k + suc j
suc-add k j = omega arith

module _ (parse_reply : List ℕ → Option ControllerToTeam) where
  Turn-cases : (t : Turn) → ((reply : Option ControllerToTeam) × (t ≡ decided reply)) ⊎ (t ≡ idle)
  Turn-cases (decided reply) = inl (reply, refl)
  Turn-cases idle = inr refl

  -- No turn is idle once the time is over.
  turn_late :
      (timeout : ℕ) (p : Poll) → timeout ≤ p.time → turn parse_reply timeout p ≡ decided none
  unfolding turn
  turn_late timeout p h = ground arith

  wait_loop-total :
      (fuel timeout k : ℕ) (polls : ℕ → Poll) (period start : ℕ)
      → ((j : ℕ) → start + j * period ≤ (polls j).time)
      → timeout ≤ start + (k + fuel) * period
      → (reply : Option ControllerToTeam) × (wait_loop parse_reply (suc fuel) timeout polls k
          ≡ some reply)
  unfolding wait_loop
  wait_loop-total zero timeout k polls period start paced enough =
      let late : timeout ≤ (polls k).time = omega (arith, paced k) in
      (none, rw (turn_late timeout (polls k) late, wait_loop))
  wait_loop-total (suc fuel) timeout k polls period start paced enough =
      elim (Turn-cases (turn parse_reply timeout (polls k))) [
        | inl (reply, e) ↦ (reply, rw (e, wait_loop))
        | inr e ↦
            let (reply, f) =
              wait_loop-total fuel timeout (suc k) polls period start paced (omega arith) in
            (reply, rw (e, wait_loop) f)
      ]

  -- `WaitForReply` ends if its turns are paced: where the k-th is at least k periods after the
  -- beginning, a second over the period and two turns more suffice.
  pub wait_for_reply-total :
      (fuel period : ℕ) (w : Wait)
      → 0 < period
      → ((j : ℕ) → w.start + j * period ≤ (w.polls j).time)
      → timeout_ns / period + 2 ≤ fuel
      → (reply : Option ControllerToTeam) × (wait_for_reply parse_reply fuel w ≡ some reply)
  unfolding wait_for_reply
  wait_for_reply-total zero period w pos_period paced enough = absurd (omega arith)
  wait_for_reply-total (suc fuel) period w pos_period paced enough =
      wait_loop-total fuel (w.start + timeout_ns) 0 w.polls period w.start paced
        (grind (arith, lt-mul-div-succ timeout_ns pos_period))

  wait_loop_first :
      (n fuel timeout k : ℕ) (polls : ℕ → Poll) (reply : Option ControllerToTeam)
      → ((j : ℕ) → j < n → turn parse_reply timeout (polls (k + j)) ≡ idle)
      → turn parse_reply timeout (polls (k + n)) ≡ decided reply
      → n < fuel
      → wait_loop parse_reply fuel timeout polls k ≡ some reply
  unfolding wait_loop
  wait_loop_first n zero timeout k polls reply before here h = absurd (omega arith)
  wait_loop_first zero (suc fuel) timeout k polls reply before here h =
      rw (rw add-zero at here, wait_loop)
  wait_loop_first (suc n) (suc fuel) timeout k polls reply before here h =
      rw (rw add-zero at (before 0 (omega arith)), wait_loop)
        (wait_loop_first n fuel timeout (suc k) polls reply
          (λ j lt. rw (suc-add k j) (before (suc j) (omega arith))) (rw (suc-add k n) here)
          (omega arith))

  -- A turn in which nothing has come and nothing has failed, before the deadline.
  abbrev pub IsQuiet : ℕ → Poll → Type 0
  IsQuiet deadline p =
      (p.time < deadline) × (p.available_error ≢ other_error) × (p.bytes_available ≡ 0)

  -- A turn that ends the wait with `reply`: bytes that were read before the deadline, with what the
  -- parser makes of them; or the deadline, or an error other than the end of the file, with nothing.
  abbrev pub Ends : ℕ → Poll → Option ControllerToTeam → Type 0
  Ends deadline p reply =
      ((p.time < deadline)
        × (p.available_error ≢ other_error)
        × (0 < p.bytes_available)
        × (p.read_error ≢ other_error)
        × (reply ≡ parse_reply p.received))
      ⊎ ((deadline ≤ p.time) × (reply ≡ none))
      ⊎ ((p.available_error ≡ other_error) × (reply ≡ none))
      ⊎ ((0 < p.bytes_available) × (p.read_error ≡ other_error) × (reply ≡ none))

  not_fatal : (e : ErrorCode) → e ≢ other_error → is_fatal e ≡ false
  not_fatal success h = refl
  not_fatal eof h = refl
  not_fatal other_error h = absurd (h refl)

  turn-IsQuiet : (deadline : ℕ) (p : Poll) → IsQuiet deadline p → turn parse_reply deadline p ≡ idle
  unfolding turn
  turn-IsQuiet deadline p (early, fine, empty) =
      let calm = not_fatal p.available_error fine in ground arith

  turn-Ends :
      (deadline : ℕ) (p : Poll) (reply : Option ControllerToTeam)
      → Ends deadline p reply
      → turn parse_reply deadline p ≡ decided reply
  unfolding turn
  turn-Ends deadline p reply (inl (early, fine, some_bytes, read_fine, same)) =
      let calm = not_fatal p.available_error fine in
      let read_calm = not_fatal p.read_error read_fine in ground arith
  turn-Ends deadline p reply (inr (inl (late, same))) = ground arith
  turn-Ends deadline p reply (inr (inr (inl (failed, same)))) = ground arith
  turn-Ends deadline p reply (inr (inr (inr (some_bytes, failed, same)))) = ground arith

  -- Turns in which nothing comes leave no trace: if the wait has turns, before the deadline, in which
  -- nothing has come and nothing has failed, and then one that ends it, and fuel for them,
  -- WaitForReply returns what that one ends it with: what the parser makes of the bytes that were read
  -- before the deadline, or nothing at the deadline or at an error other than the end of the file.
  pub wait_for_reply_first :
      (n fuel : ℕ) (w : Wait) (reply : Option ControllerToTeam)
      → ((j : ℕ) → j < n → IsQuiet (w.start + timeout_ns) (w.polls (0 + j)))
      → Ends (w.start + timeout_ns) (w.polls (0 + n)) reply
      → n < fuel
      → wait_for_reply parse_reply fuel w ≡ some reply
  unfolding wait_for_reply
  wait_for_reply_first n fuel w reply before here h =
      wait_loop_first n fuel (w.start + timeout_ns) 0 w.polls reply
        (λ j lt. turn-IsQuiet (w.start + timeout_ns) (w.polls (0 + j)) (before j lt))
        (turn-Ends (w.start + timeout_ns) (w.polls (0 + n)) reply here) h
