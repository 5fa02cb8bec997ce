-- ===== src/Log2bag/Convert/RoundTrip.antt =====
-- A log that a writer wrote becomes the bag of its messages.
use ssl_ros_bridge.Prelude.{
  ℕ, zero, suc, ◌+◌, ◌≤◌, ◌<◌, ◌≡◌, refl, sym, ◌∙◌, false, some, List, [], ◌∷◌, ◌++◌, arith, length,
  ℤ, ok, All, ◌==◌, signed64,
}
use mathlib.Core.List.{append_assoc, append-nil}
use ssl_ros_bridge.Log2bag.Stream.{at}
use ssl_ros_bridge.Log2bag.Reader.{
  Message, monostate, referee, wrapper, LogEntry, LogReader, Counts, count_entry, round,
  after_extract, get_next_message,
}
use ssl_ros_bridge.Log2bag.Reader.Progress.{IsHealthy}
use ssl_ros_bridge.Log2bag.Reader.Loop.{rounds_left, get_next_message_skip, get_next_message_now}
use ssl_ros_bridge.Log2bag.Format.{
  Logged, write_entry, write_entries, Fits, as_entry, said, with_message, messages,
}
use ssl_ros_bridge.Log2bag.Format.Counting.{tally}
use ssl_ros_bridge.Log2bag.Format.OneEntry.{extract_next_entry-write_entry, length-write_entry}
use ssl_ros_bridge.Log2bag.Convert.{
  Written, Libraries, Output, finished, translate, translate_entry, write_message_if_exists,
}

abbrev pub reader : List ℕ → ℕ → Counts → LogReader
reader bytes p c = record { input_stream = at bytes p; entry_type_counts = c }

module _ {R V A B : Type 0} (lib : Libraries R V A B) where
  -- The message in the bag for a message of the log.
  abbrev pub written : LogEntry R V → List Written
  written e = elim e.message [
    | monostate ↦ []
    | referee m ↦
        record {
          topic = "/referee_messages";
          type_name = "ssl_league_msgs/msg/Referee";
          time = e.received_time_ns;
          content = lib.serialize_referee (lib.referee_from_proto m);
        }
        ∷ []
    | wrapper m ↦
        record {
          topic = "/vision_messages";
          type_name = "ssl_league_msgs/msg/VisionWrapper";
          time = e.received_time_ns;
          content = lib.serialize_vision (lib.vision_from_proto m);
        }
        ∷ []
  ]

  unfoldable pub bag_of : List (LogEntry R V) → List Written
  bag_of [] = []
  bag_of (e ∷ es) = written e ++ bag_of es

  bag-translate_message :
      (total : ℕ) (time : ℤ) (m : Message R V) (r : LogReader) (out : Output)
      → let e : LogEntry R V = record { received_time_ns = time; message = m } in
        (translate_entry lib total e r out).bag ≡ out.bag ++ written e
  unfolding translate_entry write_message_if_exists
  bag-translate_message total time monostate r out = sym (append-nil out.bag)
  bag-translate_message total time (referee m) r out = refl
  bag-translate_message total time (wrapper m) r out = refl

  round-write_entry :
      (e : Logged) (rest : List ℕ) (p : ℕ) (c : Counts)
      → Fits lib.codec e
      → round lib.codec (reader (write_entry e rest) p c)
        ≡ after_extract
            (ok (as_entry lib.codec e))
            (reader rest (p + 16 + length e.payload) (count_entry e.kind c))
  unfolding round
  round-write_entry e rest p c fits = rw (extract_next_entry-write_entry lib.codec e rest p c fits)

  -- What the loop in `main` comes to: the bag has these messages more, and these are the counts.
  abbrev pub Translates : ℕ → ℕ → ℕ → Output → LogReader → List Written → Counts → Type 0
  Translates total rounds fuel out r added counts =
      (out' : Output) × (r' : LogReader) × (translate lib total rounds fuel out r
        ≡ some (finished out' r'))
      × (out'.bag ≡ out.bag ++ added)
      × (r'.entry_type_counts ≡ counts)

  Translates-skip :
      (total rounds fuel : ℕ) (out : Output) (r r' : LogReader) (added : List Written)
      (counts : Counts)
      → get_next_message lib.codec rounds r ≡ get_next_message lib.codec rounds r'
      → Translates total rounds (suc fuel) out r' added counts
      → Translates total rounds (suc fuel) out r added counts
  unfolding translate
  Translates-skip total rounds fuel out r r' added counts e (out', end, f, b, c) =
      (out', end, rw (e, translate) f, b, c)

  Translates-next :
      (total rounds fuel : ℕ) (out : Output) (r r' : LogReader) (time : ℤ) (m : Message R V)
      (added : List Written) (counts : Counts)
      → let entry : LogEntry R V = record { received_time_ns = time; message = m } in
        (total == 0) ≡ false
        → get_next_message lib.codec rounds r ≡ some (some entry, r')
        → Translates total rounds fuel (translate_entry lib total entry r' out) r' added counts
        → Translates total rounds (suc fuel) out r (written entry ++ added) counts
  unfolding translate
  Translates-next total rounds fuel out r r' time m added counts nonzero e (out', end, f, b, c) = (
    out',
    end,
    rw (e, nonzero, translate) f,
    b ∙ rw (bag-translate_message total time m r' out) (append_assoc out.bag _ added),
    c,
  )

  -- After the entries stand the bytes `rest`, at which the loop is known to end.
  module _ (total rounds : ℕ) (rest : List ℕ) (finish : Counts → Counts)
      (nonzero : (total == 0) ≡ false)
      (last : (fuel p : ℕ) (c : Counts) (out : Output)
        → Translates total rounds (suc fuel) out (reader rest p c) [] (finish c)) where
    Translates-round :
        (m : Message R V) (time fuel : ℕ) (r r' : LogReader) (out : Output)
        (more : List (LogEntry R V)) (counts : Counts)
        → let entry : LogEntry R V = record { received_time_ns = signed64 time; message = m } in
          IsHealthy r.input_stream
          → r.input_stream.eof ≡ false
          → rounds_left r.input_stream ≤ rounds
          → round lib.codec r ≡ after_extract (ok entry) r'
          → ((out' : Output) → Translates total rounds (suc fuel) out' r' (bag_of more) counts)
          → ((out' : Output) → Translates total rounds fuel out' r' (bag_of more) counts)
          → Translates total rounds
              (suc fuel)
              out
              r
              (bag_of (with_message lib.codec entry more))
              counts
    unfolding after_extract bag_of
    Translates-round monostate time fuel r r' out more counts h e enough f same less =
        Translates-skip total rounds fuel out r r' (bag_of more) counts
          (get_next_message_skip lib.codec rounds r r' h e enough f) (same out)
    Translates-round (referee m) time fuel r r' out more counts h e enough f same less =
        Translates-next total rounds fuel out r r' (signed64 time) (referee m) (bag_of more) counts
          nonzero (get_next_message_now lib.codec rounds r r' _ (ground arith) f) (less _)
    Translates-round (wrapper m) time fuel r r' out more counts h e enough f same less =
        Translates-next total rounds fuel out r r' (signed64 time) (wrapper m) (bag_of more) counts
          nonzero (get_next_message_now lib.codec rounds r r' _ (ground arith) f) (less _)

    pub translate-write_entries :
        (es : List Logged) (fuel p : ℕ) (c : Counts) (out : Output)
        → All (Fits lib.codec) es
        → length es < fuel
        → rounds_left (at (write_entries es rest) p) ≤ rounds
        → Translates total rounds fuel out
            (reader (write_entries es rest) p c)
            (bag_of (messages lib.codec es))
            (finish (tally es c))
    unfolding write_entries messages tally bag_of
    translate-write_entries [] zero p c out fits f h = absurd (omega arith)
    translate-write_entries [] (suc fuel) p c out fits f h = last fuel p c out
    translate-write_entries (e ∷ es) zero p c out fits f h = absurd (omega arith)
    translate-write_entries (e ∷ es) (suc fuel) p c out (fit, fits) f h =
        let next = p + 16 + length e.payload in
        let shorter : rounds_left (at (write_entries es rest) next) ≤ rounds =
          omega (arith, length-write_entry e (write_entries es rest)) in
        Translates-round (said lib.codec e.kind e.payload) e.time fuel
          (reader (write_entry e (write_entries es rest)) p c)
          (reader (write_entries es rest) next (count_entry e.kind c)) out (messages lib.codec es)
          (finish (tally es (count_entry e.kind c))) (record { fail_is_eof = refl; no_bad = refl })
          refl h (round-write_entry e (write_entries es rest) p c fit)
          (λ out'.
            translate-write_entries es (suc fuel) next (count_entry e.kind c) out' fits
              (omega arith) shorter)
          (λ out'.
            translate-write_entries es fuel next (count_entry e.kind c) out' fits (omega arith)
              shorter)
