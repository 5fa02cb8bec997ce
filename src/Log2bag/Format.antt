-- ===== src/Log2bag/Format.antt =====
-- The SSL log format as a writer puts it: a header, then entries of a time stamp, a type and a size
-- (big-endian, 8, 4 and 4 bytes) and as many bytes of data. This is the description that
-- log_reader.cpp is held against: it has its own header, numbers of the types, choice of parser and
-- count, and takes from the reader only the data types.
pub mod OneEntry
pub mod CutEntry
pub mod OddEntry
pub mod Counting
pub mod Fields
use Prim.Native.Nat.{ℕ, ◌^◌, ◌<◌}
use ssl_ros_bridge.Prelude.{
  List, [], ◌∷◌, ◌++◌, Option, none, some, length, All, ℤ, signed64, ◌≡◌, true, ◌+◌, ◌%◌, ◌==◌,
  if◌then◌else◌, String,
}
use ssl_ros_bridge.Log2bag.Bytes.{big_endian}
use ssl_ros_bridge.Log2bag.Reader.{
  EntryType, blank, unknown, vision2010, refbox2013, vision2014, vision_tracker2020, index2021,
  Message, monostate, referee, wrapper, LogEntry, Codec,
}

-- The text `SSL_LOG_FILE` and the format's version, 1.
abbrev pub log_header : List ℕ
log_header = 83 ∷ 83 ∷ 76 ∷ 95 ∷ 76 ∷ 79 ∷ 71 ∷ 95 ∷ 70 ∷ 73 ∷ 76 ∷ 69 ∷ 0 ∷ 0 ∷ 0 ∷ 1 ∷ []

abbrev pub type_number : EntryType → ℕ
type_number blank = 0
type_number unknown = 1
type_number vision2010 = 2
type_number refbox2013 = 3
type_number vision2014 = 4
type_number vision_tracker2020 = 5
type_number index2021 = 6

-- `time` is the bit pattern of the time stamp.
pub record Logged : Type 0 where
  pub time : ℕ
  pub kind : EntryType
  pub payload : List ℕ

-- The entry's bytes, in front of `rest`.
unfoldable pub write_entry : Logged → List ℕ → List ℕ
write_entry e rest =
    big_endian 8 e.time
      (big_endian 4 (type_number e.kind) (big_endian 4 (length e.payload) (e.payload ++ rest)))

unfoldable pub write_entries : List Logged → List ℕ → List ℕ
write_entries [] rest = rest
write_entries (e ∷ es) rest = write_entry e (write_entries es rest)

unfoldable pub write_log : List Logged → List ℕ
write_log es = log_header ++ write_entries es []

abbrev pub accepted : {R V M : Type 0} → (M → Message R V) → Option M → Message R V
accepted as_message none = monostate
accepted as_message (some m) = as_message m

module _ {R V : Type 0} (codec : Codec R V) where
  -- The fields fit their widths, and the data can be held in memory.
  pub record Fits (e : Logged) : Type 0 where
    pub time_fits : e.time < 2 ^ 64
    pub size_fits : length e.payload < 2 ^ 31
    pub allocated : codec.allocates (length e.payload) ≡ true

  -- What the data says: refbox entries hold a referee message and vision entries of 2014 a vision
  -- packet, if the parsers accept the data; entries of other types say nothing.
  unfoldable pub said : EntryType → List ℕ → Message R V
  said refbox2013 payload = accepted referee (codec.parse_referee payload)
  said vision2014 payload = accepted wrapper (codec.parse_wrapper payload)
  said blank payload = monostate
  said unknown payload = monostate
  said vision2010 payload = monostate
  said vision_tracker2020 payload = monostate
  said index2021 payload = monostate

  abbrev pub as_entry : Logged → LogEntry R V
  as_entry e = record { received_time_ns = signed64 e.time; message = said e.kind e.payload }

  -- The entry, if there is a message in it.
  abbrev pub with_message : LogEntry R V → List (LogEntry R V) → List (LogEntry R V)
  with_message e rest = elim e.message [
    | monostate ↦ rest
    | referee m ↦ e ∷ rest
    | wrapper m ↦ e ∷ rest
  ]

  -- What a log says to a reader of referee and vision messages.
  unfoldable pub messages : List Logged → List (LogEntry R V)
  messages [] = []
  messages (e ∷ es) = with_message (as_entry e) (messages es)

-- How many of the entries have the type.
unfoldable pub how_many : EntryType → List Logged → ℕ
how_many t [] = 0
how_many t (e ∷ es) = (if type_number e.kind == type_number t then 1 else 0) + how_many t es

-- The lines that are to be printed for a log, by the names of the types.
abbrev pub summary : List Logged → List (String × ℕ)
summary es =
    ("Refbox 2013", how_many refbox2013 es % 2 ^ 64)
    ∷ ("Vision 2014", how_many vision2014 es % 2 ^ 64)
    ∷ ("Blank", how_many blank es % 2 ^ 64)
    ∷ ("Unknown", how_many unknown es % 2 ^ 64)
    ∷ ("Vision 2010", how_many vision2010 es % 2 ^ 64)
    ∷ ("Vision Tracker 2020", how_many vision_tracker2020 es % 2 ^ 64)
    ∷ ("Index 2021", how_many index2021 es % 2 ^ 64)
    ∷ []
