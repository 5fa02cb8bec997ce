-- ===== src/Log2bag/Convert/Logs.antt =====
-- log2bag on whole logs, and on logs that are cut off.
use mathlib.Core.List.{append-nil}
use ssl_ros_bridge.Prelude.{
  ℕ, suc, ◌+◌, ◌≤◌, ◌<◌, ◌≡◌, refl, sym, ◌∙◌, true, false, none, some, List, [], ◌∷◌, ◌++◌, arith,
  length, ok, All,
}
use ssl_ros_bridge.Log2bag.Stream.{at, read_short}
use ssl_ros_bridge.Log2bag.Reader.{
  LogReader, Counts, round, continues, after_extract, extract_next_entry, get_next_message,
  expected_header, open_reader,
}
use ssl_ros_bridge.Log2bag.Reader.Header.{check_header_good}
use ssl_ros_bridge.Log2bag.Reader.Loop.{get_next_message_now, get_next_message_skip, rounds_left}
use ssl_ros_bridge.Log2bag.Reader.Progress.{extract_after_header_short}
use ssl_ros_bridge.Log2bag.Format.{Logged, write_entries, write_log, Fits, messages, summary}
use ssl_ros_bridge.Log2bag.Format.Counting.{tally, stats-tally}
use ssl_ros_bridge.Log2bag.Format.OneEntry.{length-write_entry}
use ssl_ros_bridge.Log2bag.Convert.{Libraries, Output, translate, log2bag, succeeds, stats}
use ssl_ros_bridge.Log2bag.Convert.RoundTrip.{reader, bag_of, Translates, translate-write_entries}

abbrev pub exhausted : ℕ → Counts → LogReader
exhausted p c = record {
  input_stream = record { rest = []; position = p; eof = true; fail = true; bad = false };
  entry_type_counts = c;
}

length-write_entries-le :
    (es : List Logged) (rest : List ℕ) → length es ≤ length (write_entries es rest)
unfolding write_entries
length-write_entries-le [] rest = omega arith
length-write_entries-le (e ∷ es) rest =
    omega (arith, length-write_entry e (write_entries es rest), length-write_entries-le es rest)

pub length-rest-le :
    (es : List Logged) (rest : List ℕ) → length rest ≤ length (write_entries es rest)
unfolding write_entries
length-rest-le [] rest = omega arith
length-rest-le (e ∷ es) rest =
    omega (arith, length-write_entry e (write_entries es rest), length-rest-le es rest)

module _ {R V A B : Type 0} (lib : Libraries R V A B) where
  -- Once the end has been met, the loop in `main` is over.
  pub Translates-exhausted :
      (total rounds fuel p q : ℕ) (c counts : Counts) (bytes : List ℕ) (out : Output)
      → rounds_left (at bytes p) ≤ rounds
      → round lib.codec (reader bytes p c) ≡ continues (exhausted q counts)
      → Translates lib total rounds (suc fuel) out (reader bytes p c) [] counts
  unfolding translate round
  Translates-exhausted total rounds fuel p q c counts bytes out h f =
      let r : LogReader = exhausted q counts in
      let over : get_next_message lib.codec rounds (reader bytes p c) ≡ some (none, r) =
        get_next_message_skip lib.codec rounds (reader bytes p c) r
          (record { fail_is_eof = refl; no_bad = refl }) refl h f
        ∙ get_next_message_now lib.codec rounds r r none (omega arith) refl in
      (out, r, rw (over, translate), sym (append-nil out.bag), refl)

  pub round_short :
      (bytes : List ℕ) (p : ℕ) (c : Counts)
      → length bytes < 16
      → round lib.codec (reader bytes p c) ≡ continues (exhausted (p + length bytes) c)
  unfolding round extract_next_entry after_extract
  round_short bytes p c h = rw (
    read_short 16 bytes p h,
    extract_after_header_short lib.codec bytes (exhausted (p + length bytes) c) h,
  )

  open_reader-log :
      (bytes : List ℕ)
      → open_reader (at (expected_header ++ bytes) 0) ≡ ok (reader bytes 16 (λ t. 0))
  unfolding open_reader
  open_reader-log bytes = rw (check_header_good bytes 0, open_reader)

  -- A log of whole entries and some last bytes, at which the loop in `main` is known to end.
  pub log2bag_log :
      (es : List Logged) (rest : List ℕ) (fuel size : ℕ) (finish : Counts → Counts)
      → All (Fits lib.codec) es
      → length (write_entries es rest) + 2 ≤ fuel
      → 0 < size
      → ((f p : ℕ) (c : Counts) (out : Output)
          → Translates lib size fuel (suc f) out (reader rest p c) [] (finish c))
      → (out : Output) × (log2bag lib fuel 2
            (some (expected_header ++ write_entries es rest))
            (some size)
          ≡ some (succeeds out (stats (finish (tally es (λ t. 0))))))
        × (out.bag ≡ bag_of lib (messages lib.codec es))
  unfolding log2bag
  log2bag_log es rest fuel size finish fits h pos_size last =
      let (out, r, f, b, c) =
        translate-write_entries lib size fuel rest finish (ground arith) last es fuel 16 (λ t. 0)
          (record { bag = []; bars = [] }) fits (omega (arith, length-write_entries-le es rest))
          (omega arith) in
      (out, rw (open_reader-log (write_entries es rest), f, c, log2bag), b)

  -- A log that a writer of the format wrote becomes a bag of its messages: for entries that fit,
  -- log2bag given enough fuel ends well, the bag holds the referee and vision messages that the
  -- parsers accept, in order, each under its topic and type with its entry's time, and the counts
  -- printed are those of the entries by type, each under its name.
  pub log2bag-write_log :
      (es : List Logged) (fuel size : ℕ)
      → All (Fits lib.codec) es
      → length (write_log es) ≤ fuel
      → 0 < size
      → (out : Output) × (log2bag lib fuel 2 (some (write_log es)) (some size)
          ≡ some (succeeds out (summary es)))
        × (out.bag ≡ bag_of lib (messages lib.codec es))
  unfolding write_log
  log2bag-write_log es fuel size fits h pos_size =
      let (out, ends, bag) =
        log2bag_log es [] fuel size (λ c. c) fits (omega arith) pos_size
          λ f p c out.
            Translates-exhausted size fuel f p (p + 0) c c [] out (omega arith)
              (round_short [] p c (omega arith)) in
      (out, rw (sym (stats-tally es)) ends, bag)
