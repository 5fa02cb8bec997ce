-- ===== src/Log2bag/Reader/Progress.antt =====
-- `GetNextMessage` ends: each round that goes on has eaten sixteen bytes, or met the end of the file.
use ssl_ros_bridge.Prelude.{
  ℕ, ◌+◌, ◌≤◌, ◌<◌, ◌≡◌, ◌⊎◌, inl, inr, true, false, Option, none, some, List, arith, length, ℤ,
  pos, negsuc, ok, ◌==◌, length-take, length-drop, Bool-cases,
}
use ssl_ros_bridge.Log2bag.Stream.{Stream, read}
use ssl_ros_bridge.Log2bag.Reader.{
  EntryType, Codec, LogReader, extract_data, extract_typed, extract_after_header,
  extract_next_entry, no_entry,
}

-- No device error, and no failure but that of reading past the end.
pub record IsHealthy (s : Stream) : Type 0 where
  pub fail_is_eof : s.fail ≡ s.eof
  pub no_bad : s.bad ≡ false

-- What a call has left of the stream.
pub record Leaves (s s' : Stream) : Type 0 where
  pub healthy : IsHealthy s'
  pub shrinks : length s'.rest ≤ length s.rest

pub read-Leaves : (n : ℕ) (s : Stream) → IsHealthy s → Leaves s (read n s).1
unfolding read
read-Leaves n s h = ground (arith, length-drop n s.rest)

-- Not at the end, a read gets all that is asked for, or meets the end.
read_gets :
    (n : ℕ) (s : Stream)
    → IsHealthy s
    → s.eof ≡ false
    → (length (read n s).1.rest + n ≡ length s.rest) × (length (read n s).0 ≡ n)
      ⊎ ((read n s).1.eof ≡ true) × (length (read n s).0 < n)
unfolding read
read_gets n s h e = ground (arith, length-drop n s.rest, length-take n s.rest)

-- A round that goes on brings the loop nearer to its end.
abbrev pub Advances : Stream → Stream → Type 0
Advances s s' =
    IsHealthy s'
    × (length s'.rest ≤ length s.rest)
    × ((length s'.rest + 16 ≤ length s.rest) ⊎ (s'.eof ≡ true))

module _ {R V : Type 0} (codec : Codec R V) where
  extract_data-Leaves :
      (t : EntryType) (time size : ℤ) (r : LogReader)
      → IsHealthy r.input_stream
      → Leaves r.input_stream (extract_data codec t time size r).1.input_stream
  unfolding extract_data
  extract_data-Leaves t time (negsuc n) r h = ground arith
  extract_data-Leaves t time (pos n) r h = ground (arith, read-Leaves n r.input_stream h)

  extract_typed-Leaves :
      (header : List ℕ) (t : Option EntryType) (r : LogReader)
      → IsHealthy r.input_stream
      → Leaves r.input_stream (extract_typed codec header t r).1.input_stream
  unfolding extract_typed
  extract_typed-Leaves header none r h = ground arith
  extract_typed-Leaves header (some t) r h = extract_data-Leaves t _ _ _ h

  extract_after_header-Leaves :
      (header : List ℕ) (r : LogReader)
      → IsHealthy r.input_stream
      → Leaves r.input_stream (extract_after_header codec header r).1.input_stream
  unfolding extract_after_header
  extract_after_header-Leaves header r h = elim (Bool-cases (length header == 0)) [
    | inl e ↦ rw e (record { healthy = h; shrinks = omega arith })
    | inr e ↦ elim (Bool-cases (length header == 16)) [
      | inl f ↦ rw (e, f) (extract_typed-Leaves header _ r h)
      | inr f ↦ rw (e, f) (record { healthy = h; shrinks = omega arith })
    ]
  ]

  pub extract_after_header_short :
      (header : List ℕ) (r : LogReader)
      → length header < 16
      → extract_after_header codec header r ≡ (ok no_entry, r)
  unfolding extract_after_header
  extract_after_header_short header r h = ground arith

  pub extract_next_entry-Advances :
      (r : LogReader)
      → IsHealthy r.input_stream
      → r.input_stream.eof ≡ false
      → Advances r.input_stream (extract_next_entry codec r).1.input_stream
  unfolding extract_next_entry
  extract_next_entry-Advances r h e =
      let (header, s) = read 16 r.input_stream in
      let r' : LogReader = record r { input_stream = s } in
      let header_read = read-Leaves 16 r.input_stream h in
      let body = extract_after_header-Leaves header r' header_read.healthy in
      elim (read_gets 16 r.input_stream h e) [
        | inl all ↦ (
          body.healthy,
          omega (arith, body.shrinks, header_read.shrinks),
          inl (omega (arith, body.shrinks, all.0)),
        )
        | inr short ↦
            rw (extract_after_header_short header r' short.1)
              (header_read.healthy, header_read.shrinks, inr short.0)
      ]
