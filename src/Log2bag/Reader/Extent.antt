-- ===== src/Log2bag/Reader/Extent.antt =====
-- What `tellg()` says: how far the reader has come, and that the stream is in good order whenever
-- `GetNextMessage` returns a message.
use ssl_ros_bridge.Prelude.{
  ℕ, zero, suc, ◌+◌, ◌≡◌, refl, ◌∙◌, ◌⊎◌, inl, inr, true, false, Bool-cases, if◌then◌else◌, Option,
  none, some, List, arith, length, ◌==◌, ok, err, Result, ℤ, pos, negsuc, length-take, length-drop,
}
use ssl_ros_bridge.Log2bag.Stream.{Stream, read}
use ssl_ros_bridge.Log2bag.Reader.{
  EntryType, Message, monostate, referee, wrapper, LogEntry, LogReader, Codec, Exception, Round,
  returns, continues, extract_data, extract_typed, extract_after_header, extract_next_entry,
  after_extract, round, get_next_message,
}
use ssl_ros_bridge.Log2bag.Reader.Loop.{Round-cases}

-- What `tellg()` and the bytes to come add up to.
abbrev pub extent : Stream → ℕ
extent s = s.position + length s.rest

pub extent-read : (n : ℕ) (s : Stream) → extent (read n s).1 ≡ extent s
unfolding read
extent-read n s = ground (arith, length-take n s.rest, length-drop n s.rest)

pub record IsSound (s : Stream) : Type 0 where
  pub no_fail : s.fail ≡ false
  pub no_bad : s.bad ≡ false
  pub no_eof : s.eof ≡ false

read_full-IsSound :
    (n : ℕ) (s : Stream) → IsSound s → length (read n s).0 ≡ n → IsSound (read n s).1
unfolding read
read_full-IsSound n s g e = ground (arith, length-take n s.rest)

read_some-IsSound :
    (n : ℕ) (s : Stream) → length (read (suc n) s).0 ≡ suc n → IsSound (read (suc n) s).1
unfolding read
read_some-IsSound n s e = ground (arith, length-take (suc n) s.rest)

module _ {R V : Type 0} where
  -- A call that got a message has left the stream in good order.
  abbrev IsClean : Result Exception (LogEntry R V) → LogReader → Type 0
  IsClean (err e) r = Unit {0}
  IsClean (ok e) r = (e.message ≡ monostate) ⊎ IsSound r.input_stream

module _ {R V : Type 0} (codec : Codec R V) where
  abbrev Keeps : Stream → Result Exception (LogEntry R V) × LogReader → Type 0
  Keeps s (result, r) = IsClean result r × (extent r.input_stream ≡ extent s)

  extract_data-Keeps :
      (t : EntryType) (time size : ℤ) (r : LogReader)
      → IsSound r.input_stream
      → Keeps r.input_stream (extract_data codec t time size r)
  unfolding extract_data
  extract_data-Keeps t time (negsuc n) r g = (tt, refl)
  extract_data-Keeps t time (pos n) r g = elim (Bool-cases (codec.allocates n)) [
    | inr denied ↦ rw denied (tt, refl)
    | inl enough ↦ elim (Bool-cases (length (read n r.input_stream).0 == n)) [
      | inr short ↦ rw (enough, short) (inl refl, extent-read n r.input_stream)
      | inl full ↦
          rw (enough, full)
            (
              inr (read_full-IsSound n r.input_stream g (ground arith)),
              extent-read n r.input_stream,
            )
    ]
  ]

  extract_typed-Keeps :
      (header : List ℕ) (t : Option EntryType) (r : LogReader)
      → IsSound r.input_stream
      → Keeps r.input_stream (extract_typed codec header t r)
  unfolding extract_typed
  extract_typed-Keeps header none r g = (inl refl, refl)
  extract_typed-Keeps header (some t) r g = extract_data-Keeps t _ _ _ g

  extract_after_header-Keeps :
      (header : List ℕ) (r : LogReader)
      → (length header ≡ 16 → IsSound r.input_stream)
      → Keeps r.input_stream (extract_after_header codec header r)
  unfolding extract_after_header
  extract_after_header-Keeps header r g = elim (Bool-cases (length header == 0)) [
    | inl e ↦ rw e (inl refl, refl)
    | inr e ↦ elim (Bool-cases (length header == 16)) [
      | inl f ↦ rw (e, f) (extract_typed-Keeps header _ r (g (ground arith)))
      | inr f ↦ rw (e, f) (inl refl, refl)
    ]
  ]

  extract_next_entry-Keeps : (r : LogReader) → Keeps r.input_stream (extract_next_entry codec r)
  unfolding extract_next_entry
  extract_next_entry-Keeps r =
      let (clean, same) =
        extract_after_header-Keeps (read 16 r.input_stream).0
          (record r { input_stream = (read 16 r.input_stream).1 })
          (read_some-IsSound 15 r.input_stream) in
      (clean, same ∙ extent-read 16 r.input_stream)

  -- A round keeps the extent, and leaves the stream in good order if it returns a message.
  abbrev RoundKeeps : Stream → Round R V → Type 0
  RoundKeeps s (continues r) = extent r.input_stream ≡ extent s
  RoundKeeps s (returns none r) = extent r.input_stream ≡ extent s
  RoundKeeps s (returns (some e) r) = IsSound r.input_stream × (extent r.input_stream ≡ extent s)

  after_extract-RoundKeeps :
      (s : Stream) (result : Result Exception (LogEntry R V)) (r : LogReader)
      → IsClean result r
      → extent r.input_stream ≡ extent s
      → RoundKeeps s (after_extract result r)
  unfolding after_extract
  after_extract-RoundKeeps s (err e) r clean same = same
  after_extract-RoundKeeps s (ok e) r clean same = by_message e.message refl
    where
      by_message : (m : Message R V) → e.message ≡ m → RoundKeeps s (after_extract (ok e) r)
      by_message monostate f = rw f same
      by_message (referee m) f = rw f (ground (arith, clean, f), same)
      by_message (wrapper m) f = rw f (ground (arith, clean, f), same)

  round-RoundKeeps : (r : LogReader) → RoundKeeps r.input_stream (round codec r)
  unfolding round
  round-RoundKeeps r =
      let (result, r') = extract_next_entry codec r in
      let (clean, same) = extract_next_entry-Keeps r in
      elim r.input_stream.eof
        as (λ b.
          RoundKeeps r.input_stream (if b then returns none r else after_extract result r')) [
            | true ↦ refl
            | false ↦ after_extract-RoundKeeps r.input_stream result r' clean same
          ]

  pub get_next_message-Keeps :
      (rounds : ℕ) (r r' : LogReader) (entry : LogEntry R V)
      → get_next_message codec rounds r ≡ some (some entry, r')
      → IsSound r'.input_stream × (extent r'.input_stream ≡ extent r.input_stream)
  unfolding get_next_message
  get_next_message-Keeps zero r r' entry e = cc
  get_next_message-Keeps (suc rounds) r r' entry e =
      let kept = round-RoundKeeps r in
      elim (Round-cases (round codec r)) [
        | inl (none, r'', f) ↦ absurd (ground (arith, e, f))
        | inl (some entry', r'', f) ↦
            let kept' : RoundKeeps r.input_stream (returns (some entry') r'') = rw f at kept in
            ground (arith, e, f, kept')
        | inr (r'', f) ↦
            let kept' : RoundKeeps r.input_stream (continues r'') = rw f at kept in
            let (sound, same) = get_next_message-Keeps rounds r'' r' entry (ground (arith, e, f)) in
            (sound, same ∙ kept')
      ]
