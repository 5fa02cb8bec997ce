-- ===== src/Log2bag/Playback.antt =====
-- log2bag with the conversion of core/message_conversion.cpp: what the referee messages of the bag say
-- of those of the log.
pub mod Tests
use text.Mathlib.Text.{◌==◌ as str_eq}
use ssl_ros_bridge.Prelude.{
  ℕ, ◌≤◌, ◌<◌, ◌≡◌, refl, sym, ap, subst, ◌∙◌, ℤ, Option, none, some, List, [], ◌∷◌, ◌++◌, map, All,
  length, if◌then◌else◌, true, false, arith,
}
use ssl_ros_bridge.Conversion.Arithmetic.{Arithmetic}
use ssl_ros_bridge.Conversion.Referees.{Referee, RefereeMsg, referee_from_proto}
use ssl_ros_bridge.Conversion.Referees.Timestamps.{IsExact}
use ssl_ros_bridge.Conversion.Referees.Original.{
  original_referee, remembered_referee, original_referee-referee_from_proto,
}
use ssl_ros_bridge.GcBridge.Subscribers.{InRange}
use ssl_ros_bridge.Log2bag.Reader.{LogEntry, Message, monostate, referee, wrapper, Codec}
use ssl_ros_bridge.Log2bag.Format.{Logged, write_log, Fits, messages, summary}
use ssl_ros_bridge.Log2bag.Convert.{Written, Libraries, Output, log2bag, succeeds}
use ssl_ros_bridge.Log2bag.Convert.RoundTrip.{written, bag_of}
use ssl_ros_bridge.Log2bag.Convert.Logs.{log2bag-write_log}

-- The referee messages of the bag, each with its time, read back.
unfoldable pub played : (List ℕ → RefereeMsg) → List Written → List (ℤ × Referee)
played deserialize [] = []
played deserialize (w ∷ ws) =
    if str_eq w.topic "/referee_messages"
    then (w.time, original_referee (deserialize w.content)) ∷ played deserialize ws
    else played deserialize ws

module _ {V : Type 0} where
  abbrev pub logged_of : LogEntry Referee V → List (ℤ × Referee)
  logged_of e = elim e.message [
    | monostate ↦ []
    | referee r ↦ (e.received_time_ns, r) ∷ []
    | wrapper v ↦ []
  ]

  -- The referee messages of the log, each with its time.
  unfoldable pub logged_referees : List (LogEntry Referee V) → List (ℤ × Referee)
  logged_referees [] = []
  logged_referees (e ∷ es) = logged_of e ++ logged_referees es

abbrev pub remembered : ℤ × Referee → ℤ × Referee
remembered (time, r) = (time, remembered_referee r)

module _ {V B : Type 0} (codec : Codec Referee V) (arithmetic : Arithmetic)
    (vision_from_proto : V → B) (serialize : RefereeMsg → List ℕ)
    (serialize_vision : B → List ℕ) where
  abbrev pub libraries : Libraries Referee V RefereeMsg B
  libraries = record {
    codec = codec;
    referee_from_proto = referee_from_proto arithmetic;
    vision_from_proto = vision_from_proto;
    serialize_referee = serialize;
    serialize_vision = serialize_vision;
  }

  module _ (deserialize : List ℕ → RefereeMsg) (exact : IsExact arithmetic) where
    -- A referee message with timestamps that fit, whose ROS message is read as it was written.
    abbrev pub Readable : ℤ × Referee → Type 0
    Readable (time, r) =
        InRange r
        × (deserialize (serialize (referee_from_proto arithmetic r))
            ≡ referee_from_proto arithmetic r)

    played-written :
        (time : ℤ) (m : Message Referee V) (ws : List Written) (rs : List (ℤ × Referee))
        → let e : LogEntry Referee V = record { received_time_ns = time; message = m } in
          All Readable (logged_of e ++ rs)
          → (All Readable rs → played deserialize ws ≡ map remembered rs)
          → played deserialize (written libraries e ++ ws) ≡ map remembered (logged_of e ++ rs)
    unfolding played
    played-written time monostate ws rs h rest = rest h
    played-written time (referee r) ws rs (((p, c), kept), hs) rest =
        rw (kept, original_referee-referee_from_proto arithmetic r exact p c, rest hs)
    played-written time (wrapper v) ws rs h rest = rest h

    played-bag_of :
        (es : List (LogEntry Referee V))
        → All Readable (logged_referees es)
        → played deserialize (bag_of libraries es) ≡ map remembered (logged_referees es)
    unfolding played bag_of logged_referees
    played-bag_of [] h = refl
    played-bag_of (e ∷ es) h =
        played-written e.received_time_ns e.message (bag_of libraries es) (logged_referees es) h
          (played-bag_of es)

    -- log2bag on a log that a writer wrote, all of whose entries fit the format, ends with success, and
    -- the bag's referee messages say, each under the time of its entry, just what the log's referee
    -- entries said (all but the designated position, what game events lose, and whether a proposal
    -- group's `accepted` was set, which counts as false if not), in the log's order, if the clock is
    -- exact, these messages are read as they were written, and their timestamps are such as the
    -- message can hold.
    pub log2bag-played :
        (es : List Logged) (fuel size : ℕ)
        → All (Fits codec) es
        → length (write_log es) ≤ fuel
        → 0 < size
        → All Readable (logged_referees (messages codec es))
        → (out : Output) × (log2bag libraries fuel 2 (some (write_log es)) (some size)
            ≡ some (succeeds out (summary es)))
          × (played deserialize out.bag ≡ map remembered (logged_referees (messages codec es)))
    log2bag-played es fuel size fits h pos_size in_range =
        let (out, ends, bag) = log2bag-write_log libraries es fuel size fits h pos_size in
        (out, ends, ap (played deserialize) bag ∙ played-bag_of (messages codec es) in_range)
