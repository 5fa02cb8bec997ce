-- ===== src/Log2bag/Reader/Loop.antt =====
-- The loop of `GetNextMessage`: it ends, how often it goes round does not depend on the fuel given,
-- and where it does not end.
use ssl_ros_bridge.Prelude.{
  ℕ, zero, suc, ◌+◌, ◌/◌, ◌≤◌, ◌<◌, ◌≡◌, refl, ◌⊎◌, inl, inr, true, false, Option, none, some,
  arith, length, Result, ok, err, if◌then◌else◌, sym, ◌∙◌, Bool-cases,
}
use ssl_ros_bridge.Log2bag.Stream.{Stream, read}
use ssl_ros_bridge.Log2bag.Reader.{
  Codec, LogEntry, LogReader, Round, returns, continues, Exception, extract_after_header,
  extract_next_entry, after_extract, round, get_next_message,
}
use ssl_ros_bridge.Log2bag.Reader.Progress.{IsHealthy, Advances, extract_next_entry-Advances}

-- A bound on the rounds that are left.
abbrev pub rounds_left : Stream → ℕ
rounds_left s = if s.eof then 1 else length s.rest / 16 + 2

module _ {R V : Type 0} where
  abbrev reader_of : Round R V → LogReader
  reader_of (returns entry r) = r
  reader_of (continues r) = r

  pub Round-cases :
      (x : Round R V)
      → ((entry : Option (LogEntry R V)) × (r : LogReader) × (x ≡ returns entry r))
        ⊎ ((r : LogReader) × (x ≡ continues r))
  Round-cases (returns entry r) = inl (entry, r, refl)
  Round-cases (continues r) = inr (r, refl)

  reader_of-after_extract :
      (result : Result Exception (LogEntry R V)) (r : LogReader)
      → reader_of (after_extract result r) ≡ r
  unfolding after_extract
  reader_of-after_extract (err e) r = refl
  reader_of-after_extract (ok entry) r = ground arith

module _ {R V : Type 0} (codec : Codec R V) where
  round-Advances :
      (r : LogReader)
      → IsHealthy r.input_stream
      → r.input_stream.eof ≡ false
      → Advances r.input_stream (reader_of (round codec r)).input_stream
  unfolding round
  round-Advances r h e =
      let (result, r') = extract_next_entry codec r in
      simp (e, reader_of-after_extract result r') (extract_next_entry-Advances codec r h e)

  -- How a call of `GetNextMessage` ends: with a reader that has no error, and nearer to the end of
  -- the file if there is a message.
  pub record Ended (r : LogReader) (entry : Option (LogEntry R V)) (r' : LogReader) : Type 0 where
    pub healthy : IsHealthy r'.input_stream
    pub nearer : (entry ≡ none) ⊎ (rounds_left r'.input_stream < rounds_left r.input_stream)

  get_next_message-Ended_step :
      (fuel : ℕ) (r : LogReader) (x : Round R V)
      → round codec r ≡ x
      → r.input_stream.eof ≡ false
      → Advances r.input_stream (reader_of x).input_stream
      → ((r' : LogReader)
          → IsHealthy r'.input_stream
          → rounds_left r'.input_stream ≤ fuel
          → (entry : Option (LogEntry R V)) × (r'' : LogReader) × (get_next_message codec fuel r'
              ≡ some (entry, r''))
            × Ended r' entry r'')
      → rounds_left r.input_stream ≤ suc fuel
      → (entry : Option (LogEntry R V)) × (r' : LogReader) × (get_next_message codec (suc fuel) r
          ≡ some (entry, r'))
        × Ended r entry r'
  unfolding get_next_message
  get_next_message-Ended_step fuel r (returns entry r') e open_ adv rest enough =
      (entry, r', rw (e, get_next_message), record { healthy = adv.0; nearer = inr (ground arith) })
  get_next_message-Ended_step fuel r (continues r') e open_ adv rest enough =
      let (entry, r'', eq, ended) = rest r' adv.0 (ground arith) in
      (
        entry,
        r'',
        rw (e, get_next_message) eq,
        record { healthy = ended.healthy; nearer = ground (arith, ended.nearer) },
      )

  -- On a healthy stream `GetNextMessage` ends, given a round for each sixteen bytes that are left and
  -- two more, or one at the stream's end. The stream stays healthy, and if there is a message, fewer
  -- rounds are left.
  pub get_next_message-Ended :
      (fuel : ℕ) (r : LogReader)
      → IsHealthy r.input_stream
      → rounds_left r.input_stream ≤ fuel
      → (entry : Option (LogEntry R V)) × (r' : LogReader) × (get_next_message codec fuel r
          ≡ some (entry, r'))
        × Ended r entry r'
  unfolding get_next_message round
  get_next_message-Ended zero r h enough = absurd (ground arith)
  get_next_message-Ended (suc fuel) r h enough = elim (Bool-cases r.input_stream.eof) [
    | inl e ↦ (none, r, rw (e, round), record { healthy = h; nearer = inl refl })
    | inr e ↦
        get_next_message-Ended_step fuel r (round codec r) refl e (round-Advances r h e)
          (get_next_message-Ended fuel) enough
  ]

  -- More fuel changes nothing.
  pub get_next_message_more :
      (fuel more : ℕ) (r : LogReader) {x : Option (LogEntry R V) × LogReader}
      → fuel ≤ more
      → get_next_message codec fuel r ≡ some x
      → get_next_message codec more r ≡ some x
  unfolding get_next_message
  get_next_message_more zero more r le e = cc
  get_next_message_more (suc fuel) zero r le e = absurd (omega arith)
  get_next_message_more (suc fuel) (suc more) r le e = elim (Round-cases (round codec r)) [
    | inl (entry, r', f) ↦ ground (arith, f)
    | inr (r', f) ↦
        rw (f, get_next_message)
          (get_next_message_more fuel more r' (omega arith) (ground (arith, f, e)))
  ]

  pub get_next_message_now :
      (rounds : ℕ) (r r' : LogReader) (x : Option (LogEntry R V))
      → 1 ≤ rounds
      → round codec r ≡ returns x r'
      → get_next_message codec rounds r ≡ some (x, r')
  unfolding get_next_message
  get_next_message_now zero r r' x h f = absurd (omega arith)
  get_next_message_now (suc rounds) r r' x h f = rw (f, get_next_message)

  -- A round that goes on can be left out, if the fuel is enough.
  pub get_next_message_skip :
      (rounds : ℕ) (r r' : LogReader)
      → IsHealthy r.input_stream
      → r.input_stream.eof ≡ false
      → rounds_left r.input_stream ≤ rounds
      → round codec r ≡ continues r'
      → get_next_message codec rounds r ≡ get_next_message codec rounds r'
  unfolding get_next_message
  get_next_message_skip zero r r' h e enough f = absurd (ground arith)
  get_next_message_skip (suc rounds) r r' h e enough f =
      let adv : Advances r.input_stream r'.input_stream = rw f at (round-Advances r h e) in
      let (entry, r'', eq, ended) = get_next_message-Ended rounds r' adv.0 (ground arith) in
      rw (f, get_next_message)
        (eq ∙ sym (get_next_message_more rounds (suc rounds) r' (omega arith) eq))

  -- A stream that has failed or is bad, without having met the end of the file, is read for ever: no
  -- fuel is enough.
  pub get_next_message_stuck :
      (fuel : ℕ) (r : LogReader)
      → r.input_stream.eof ≡ false
      → (r.input_stream.fail ≡ true) ⊎ (r.input_stream.bad ≡ true)
      → get_next_message codec fuel r ≡ none
  unfolding get_next_message round extract_next_entry extract_after_header read after_extract
  get_next_message_stuck zero r e f = refl
  get_next_message_stuck (suc fuel) r e f =
      let r' = record r { input_stream = record r.input_stream { fail = true } } in
      ground (arith, get_next_message_stuck fuel r' e (inl refl))
