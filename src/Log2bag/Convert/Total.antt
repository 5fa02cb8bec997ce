-- ===== src/Log2bag/Convert/Total.antt =====
-- log2bag ends on every file.
use ssl_ros_bridge.Prelude.{
  ℕ, zero, suc, ◌+◌, ◌/◌, ◌≤◌, ◌≡◌, refl, ◌⊎◌, inl, inr, Bool-cases, Option, none, some, List, [],
  arith, length, Result, ok, err, ◌==◌, ==_iff,
}
use ssl_ros_bridge.Log2bag.Stream.{Stream, at}
use ssl_ros_bridge.Log2bag.Reader.{
  LogReader, LogEntry, Exception, check_header, open_reader, get_next_message,
}
use ssl_ros_bridge.Log2bag.Reader.Progress.{IsHealthy, Leaves, read-Leaves}
use ssl_ros_bridge.Log2bag.Reader.Loop.{rounds_left, Ended, get_next_message-Ended}
use ssl_ros_bridge.Log2bag.Convert.{
  Libraries, Output, Loop, finished, divided_by_zero, Ending, fails, uncaught, crashes, succeeds,
  stats, ending, translate, translate_entry, log2bag,
}

-- The bytes of a file, none if it could not be opened.
abbrev pub contents : Option (List ℕ) → List ℕ
contents none = []
contents (some bytes) = bytes

module _ {R V A B : Type 0} (lib : Libraries R V A B) where
  translate-total_step :
      (total rounds fuel : ℕ) (out : Output) (r : LogReader)
      → ((out' : Output) (r' : LogReader)
          → IsHealthy r'.input_stream
          → rounds_left r'.input_stream ≤ rounds
          → rounds_left r'.input_stream ≤ fuel
          → (loop : Loop) × (translate lib total rounds fuel out' r' ≡ some loop))
      → rounds_left r.input_stream ≤ rounds
      → rounds_left r.input_stream ≤ suc fuel
      → (entry : Option (LogEntry R V)) × (r' : LogReader) × (get_next_message lib.codec rounds r
          ≡ some (entry, r'))
        × Ended lib.codec r entry r'
      → (loop : Loop) × (translate lib total rounds (suc fuel) out r ≡ some loop)
  unfolding translate
  translate-total_step total rounds fuel out r rest enough f (none, r', e, ended) =
      (finished out r', rw (e, translate))
  translate-total_step total rounds fuel out r rest enough f (some entry, r', e, ended) =
      elim (Bool-cases (total == 0)) [
        | inl z ↦ (divided_by_zero, rw (e, z, translate))
        | inr z ↦
            let (loop, g) =
              rest (translate_entry lib total entry r' out) r' ended.healthy
                (ground (arith, ended.nearer)) (ground (arith, ended.nearer)) in
            (loop, rw (e, z, translate) g)
      ]

  translate-total :
      (total rounds fuel : ℕ) (out : Output) (r : LogReader)
      → IsHealthy r.input_stream
      → rounds_left r.input_stream ≤ rounds
      → rounds_left r.input_stream ≤ fuel
      → (loop : Loop) × (translate lib total rounds fuel out r ≡ some loop)
  translate-total total rounds zero out r h enough f = absurd (ground arith)
  translate-total total rounds (suc fuel) out r h enough f =
      translate-total_step total rounds fuel out r (translate-total total rounds fuel) enough f
        (get_next_message-Ended lib.codec rounds r h enough)

  check_header-Leaves : (s s' : Stream) → IsHealthy s → check_header s ≡ ok s' → Leaves s s'
  unfolding check_header
  check_header-Leaves s s' h e = ground (arith, read-Leaves 16 s h)

  ending-total : (loop : Loop) → (e : Ending) × (ending lib (some loop) ≡ some e)
  ending-total divided_by_zero = (crashes, refl)
  ending-total (finished out r) = (succeeds out (stats r.entry_type_counts), refl)

  pub open_reader-cases :
      (s : Stream)
      → ((e : Exception) × (open_reader s ≡ err e))
        ⊎ ((r : LogReader) × (open_reader s ≡ ok r) × (check_header s ≡ ok r.input_stream))
  unfolding open_reader
  open_reader-cases s = from (check_header s) refl
    where
      from :
          (x : Result Exception Stream)
          → check_header s ≡ x
          → ((e : Exception) × (open_reader s ≡ err e))
            ⊎ ((r : LogReader) × (open_reader s ≡ ok r) × (check_header s ≡ ok r.input_stream))
      from (err e) f = inl (e, rw (f, open_reader))
      from (ok s') f =
          inr (record { input_stream = s'; entry_type_counts = λ t. 0 }, rw (f, open_reader), f)

  log2bag-total_open :
      (fuel size : ℕ) (bytes : List ℕ)
      → length bytes / 16 + 2 ≤ fuel
      → (e : Ending) × (log2bag lib fuel 2 (some bytes) (some size) ≡ some e)
  unfolding log2bag
  log2bag-total_open fuel size bytes enough = elim (open_reader-cases (at bytes 0)) [
    | inl (x, f) ↦ (uncaught x, rw (f, log2bag))
    | inr (r, f, g) ↦
        let left =
          check_header-Leaves (at bytes 0) r.input_stream
            (record { fail_is_eof = refl; no_bad = refl }) g in
        let bound : rounds_left r.input_stream ≤ fuel = ground (arith, left.shrinks) in
        let (loop, h) =
          translate-total size fuel fuel (record { bag = []; bars = [] }) r left.healthy bound
            bound in
        let (e, k) = ending-total loop in (e, rw (f, log2bag, h) k)
  ]

  -- log2bag ends on every file, whatever its bytes are and its size is said to be, given a round for
  -- each sixteen bytes and two more.
  pub log2bag-total :
      (fuel argc : ℕ) (file : Option (List ℕ)) (size : Option ℕ)
      → length (contents file) / 16 + 2 ≤ fuel
      → (e : Ending) × (log2bag lib fuel argc file size ≡ some e)
  unfolding log2bag
  log2bag-total fuel argc none size enough = (fails, refl)
  log2bag-total fuel argc (some bytes) none enough = (fails, refl)
  log2bag-total fuel argc (some bytes) (some size) enough = elim (Bool-cases (argc == 2)) [
    | inl two ↦ rw ((==_iff argc 2).0 two) (log2bag-total_open fuel size bytes enough)
    | inr other ↦ (fails, rw other)
  ]
