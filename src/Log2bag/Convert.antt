-- ===== src/Log2bag/Convert.antt =====
-- log2bag.cpp: the program around the reader. `Libraries` holds what is not in this directory: the
-- conversions of core/message_conversion.cpp and the serialization of ROS messages. The bag is the
-- list of the messages written to it; of the console, the progress bars and the final counts are
-- kept. `uintmax_t` has 64 bits. Opening the bag's writer and writing to it are taken not to throw.
pub mod RoundTrip
pub mod Logs
pub mod Truncated
pub mod Total
pub mod Bars
use ssl_ros_bridge.Prelude.{
  ℕ, zero, suc, ◌+◌, ◌-◌, ◌*◌, ◌/◌, ◌%◌, ◌^◌, Bool, true, false, not, ◌||◌, Option, none, some,
  List, [], ◌∷◌, ◌++◌, ◌==◌, if◌then◌else◌, ℤ, Result, ok, err, length, String, map,
}
use ssl_ros_bridge.Log2bag.Stream.{Stream, at}
use ssl_ros_bridge.Log2bag.Reader.{
  EntryType, blank, unknown, vision2010, refbox2013, vision2014, vision_tracker2020, index2021,
  Message, monostate, referee, wrapper, LogEntry, LogReader, Codec, Counts, Exception, open_reader,
  get_next_message,
}

pub record Written : Type 0 where
  pub topic : String
  pub type_name : String
  pub time : ℤ
  pub content : List ℕ

pub record Libraries (R V A B : Type 0) : Type 0 where
  pub codec : Codec R V
  pub referee_from_proto : R → A
  pub vision_from_proto : V → B
  pub serialize_referee : A → List ℕ
  pub serialize_vision : B → List ℕ

-- `std::holds_alternative` and `std::get` on the variant, for its two message types.
module _ {R V : Type 0} where
  abbrev pub get_referee : Message R V → Option R
  get_referee (referee m) = some m
  get_referee _ = none

  abbrev pub get_wrapper : Message R V → Option V
  get_wrapper (wrapper m) = some m
  get_wrapper _ = none

-- `WriteMessageIfExists<ProtoType, RosType>`
unfoldable pub write_message_if_exists :
    {R V P Q : Type 0}
    → (Message R V → Option P)
    → (P → Q)
    → (Q → List ℕ)
    → LogEntry R V
    → String
    → String
    → List Written
    → List Written
write_message_if_exists get from_proto serialize entry topic type_name bag =
    elim (get entry.message) [
      | none ↦ bag
      | some m ↦
          bag
          ++ (record {
            topic = topic;
            type_name = type_name;
            time = entry.received_time_ns;
            content = serialize (from_proto m);
          }
              ∷ [])
    ]

pub record ProgressBar : Type 0 where
  pub filled : ℕ
  pub blanks : ℕ
  pub percent : ℕ

-- `RenderProgressBar`, where `bytes_total` is not zero.
unfoldable pub render_progress_bar : ℕ → ℕ → ProgressBar
render_progress_bar bytes_read bytes_total =
    let percent = (bytes_read * 100) % 2 ^ 64 / bytes_total in
    let num_filled_chars = (percent * 20) % 2 ^ 64 / 100 in
    record {
      filled = num_filled_chars;
      blanks = (20 + 2 ^ 64 - num_filled_chars) % 2 ^ 64;
      percent = percent;
    }

-- `tellg()`, which is -1 on a stream that has failed, as a `uintmax_t`.
abbrev pub tellg : Stream → ℕ
tellg s = if s.fail || s.bad then 2 ^ 64 - 1 else s.position

pub record Output : Type 0 where
  pub bag : List Written
  pub bars : List ProgressBar

pub data Loop : Type 0 where
  finished : Output → LogReader → Loop
  divided_by_zero : Loop

-- The lines printed at the end, in their order.
unfoldable pub stats : Counts → List (String × ℕ)
stats type_stats =
    ("Refbox 2013", type_stats refbox2013)
    ∷ ("Vision 2014", type_stats vision2014)
    ∷ ("Blank", type_stats blank)
    ∷ ("Unknown", type_stats unknown)
    ∷ ("Vision 2010", type_stats vision2010)
    ∷ ("Vision Tracker 2020", type_stats vision_tracker2020)
    ∷ ("Index 2021", type_stats index2021)
    ∷ []

pub data Ending : Type 0 where
  -- `return 1`, with nothing written
  fails : Ending
  -- `return 0`, with the output and the final counts
  succeeds : Output → List (String × ℕ) → Ending
  -- an exception leaves `main`
  uncaught : Exception → Ending
  crashes : Ending

module _ {R V A B : Type 0} (lib : Libraries R V A B) where
  -- The body of the loop in `main`.
  unfoldable pub translate_entry : ℕ → LogEntry R V → LogReader → Output → Output
  translate_entry bytes_total entry r out =
      let bag' =
        write_message_if_exists get_referee lib.referee_from_proto lib.serialize_referee entry
          "/referee_messages" "ssl_league_msgs/msg/Referee" out.bag in
      record {
        bag =
            write_message_if_exists get_wrapper lib.vision_from_proto lib.serialize_vision entry
              "/vision_messages" "ssl_league_msgs/msg/VisionWrapper" bag';
        bars = out.bars ++ (render_progress_bar (tellg r.input_stream) bytes_total ∷ []);
      }

  -- At most `fuel` rounds of the loop in `main`, each with at most `rounds` of `GetNextMessage`.
  unfoldable pub translate : ℕ → ℕ → ℕ → Output → LogReader → Option Loop
  translate bytes_total rounds zero out r = none
  translate bytes_total rounds (suc fuel) out r = elim (get_next_message lib.codec rounds r) [
    | none ↦ none
    | some (none, r') ↦ some (finished out r')
    | some (some entry, r') ↦ elim (bytes_total == 0) [
      | true ↦ some divided_by_zero
      | false ↦ translate bytes_total rounds fuel (translate_entry bytes_total entry r' out) r'
    ]
  ]

  abbrev pub ending : Option Loop → Option Ending
  ending none = none
  ending (some divided_by_zero) = some crashes
  ending (some (finished out r)) = some (succeeds out (stats r.entry_type_counts))

  -- `main`, from the number of arguments, the bytes of the file if it could be opened, and its size
  -- if the file system tells it. `none` is that the fuel ran out.
  unfoldable pub log2bag : ℕ → ℕ → Option (List ℕ) → Option ℕ → Option Ending
  log2bag fuel argc none size = some fails
  log2bag fuel argc (some bytes) none = some fails
  log2bag fuel argc (some bytes) (some size) =
      if not (argc == 2) then some fails else elim (open_reader (at bytes 0)) [
        | err e ↦ some (uncaught e)
        | ok r ↦ ending (translate size fuel fuel (record { bag = []; bars = [] }) r)
      ]
