-- ===== src/Log2bag/Reader.antt =====
-- log_reader.hpp and log_reader.cpp. What is thrown is a result; text for the console is left out.
-- The protobuf parsers and the allocator are not part of the program: `Codec` holds them.
pub mod Progress
pub mod Loop
pub mod Extent
pub mod Header
use ssl_ros_bridge.Prelude.{
  ℕ, zero, suc, ◌+◌, ◌%◌, ◌^◌, Bool, true, false, not, ◌&&◌, Option, none, some, List, [], ◌∷◌,
  ◌==◌, if◌then◌else◌, length, ℤ, pos, negsuc, signed32, signed64, Result, ok, err,
}
use ssl_ros_bridge.Log2bag.Stream.{Stream, read}
use ssl_ros_bridge.Log2bag.Bytes.{copy_backwards, little_endian}

pub data EntryType : Type 0 where
  blank unknown vision2010 refbox2013 vision2014 vision_tracker2020 index2021 : EntryType

-- The enumerators' values.
abbrev pub raw_value : EntryType → ℕ
raw_value blank = 0
raw_value unknown = 1
raw_value vision2010 = 2
raw_value refbox2013 = 3
raw_value vision2014 = 4
raw_value vision_tracker2020 = 5
raw_value index2021 = 6

-- The test `entry_type_raw < 0 || entry_type_raw > 6`, and the cast where it does not hold.
unfoldable pub entry_type_of : ℤ → Option EntryType
entry_type_of (negsuc n) = none
entry_type_of (pos n) =
    if n == 0
    then some blank
    else if n == 1
    then some unknown
    else if n == 2
    then some vision2010
    else if n == 3
    then some refbox2013
    else if n == 4
    then some vision2014
    else if n == 5
    then some vision_tracker2020
    else if n == 6
    then some index2021
    else none

-- `std::variant<std::monostate, Referee, SSL_WrapperPacket>`
pub data Message (R V : Type 0) : Type 0 where
  monostate : Message R V
  referee : R → Message R V
  wrapper : V → Message R V

pub record LogEntry (R V : Type 0) : Type 0 where
  pub received_time_ns : ℤ
  pub message : Message R V

pub data Exception : Type 0 where
  short_header unsupported_format length_error bad_alloc : Exception

-- `entry_type_counts`, a map with all seven keys.
abbrev pub Counts : Type 0
Counts = EntryType → ℕ

pub record LogReader : Type 0 where
  pub input_stream : Stream
  pub entry_type_counts : Counts

-- What the libraries do: parse a message, and say whether a vector of that size can be had.
pub record Codec (R V : Type 0) : Type 0 where
  pub parse_referee : List ℕ → Option R
  pub parse_wrapper : List ℕ → Option V
  pub allocates : ℕ → Bool

-- `entry_type_counts[t]++`, on a `uint64_t`.
unfoldable pub count_entry : EntryType → Counts → Counts
count_entry t counts u = if raw_value u == raw_value t then (counts u + 1) % 2 ^ 64 else counts u

abbrev pub expected_header : List ℕ
expected_header =
    b'S' ∷ b'S' ∷ b'L' ∷ b'_' ∷ b'L' ∷ b'O' ∷ b'G' ∷ b'_' ∷ b'F' ∷ b'I' ∷ b'L' ∷ b'E' ∷ 0 ∷ 0 ∷ 0
    ∷ 1 ∷ []

-- `std::ranges::equal`
unfoldable pub equal : List ℕ → List ℕ → Bool
equal [] [] = true
equal [] (y ∷ ys) = false
equal (x ∷ xs) [] = false
equal (x ∷ xs) (y ∷ ys) = x == y && equal xs ys

unfoldable pub check_header : Stream → Result Exception Stream
check_header s =
    let (header_buffer, s') = read 16 s in
    if not (length header_buffer == 16)
    then err short_header
    else if not (equal header_buffer expected_header)
    then err unsupported_format
    else ok s'

-- The constructor.
unfoldable pub open_reader : Stream → Result Exception LogReader
open_reader s = elim (check_header s) [
  | err e ↦ err e
  | ok s' ↦ ok (record { input_stream = s'; entry_type_counts = λ t. 0 })
]

-- What one round of the loop in `GetNextMessage` comes to.
pub data Round (R V : Type 0) : Type 0 where
  returns : Option (LogEntry R V) → LogReader → Round R V
  continues : LogReader → Round R V

module _ {R V : Type 0} where
  -- `return {};`
  abbrev pub no_entry : LogEntry R V
  no_entry = record { received_time_ns = pos 0; message = monostate }

  unfoldable pub after_extract : Result Exception (LogEntry R V) → LogReader → Round R V
  after_extract (err e) r = returns none r
  after_extract (ok entry) r = elim entry.message [
    | monostate ↦ continues r
    | referee m ↦ returns (some entry) r
    | wrapper m ↦ returns (some entry) r
  ]

module _ {R V : Type 0} (codec : Codec R V) where
  unfoldable pub parse_message : EntryType → List ℕ → Message R V
  parse_message refbox2013 bytes = elim (codec.parse_referee bytes) [
    | none ↦ monostate
    | some m ↦ referee m
  ]
  parse_message vision2014 bytes = elim (codec.parse_wrapper bytes) [
    | none ↦ monostate
    | some m ↦ wrapper m
  ]
  parse_message _ bytes = monostate

  -- From the allocation of `data` to the end of the function. A negative size becomes a `size_t`
  -- beyond any vector's limit.
  unfoldable pub extract_data :
      EntryType → ℤ → ℤ → LogReader → Result Exception (LogEntry R V) × LogReader
  extract_data t time (negsuc n) r = (err length_error, r)
  extract_data t time (pos n) r =
      if not (codec.allocates n)
      then (err bad_alloc, r)
      else let (bytes, s) = read n r.input_stream in
        let r' = record r { input_stream = s } in
        if not (length bytes == n)
        then (ok no_entry, r')
        else (ok (record { received_time_ns = time; message = parse_message t bytes }), r')

  -- From the check of the entry's type to the end, with all sixteen bytes of the header at hand.
  unfoldable pub extract_typed :
      List ℕ → Option EntryType → LogReader → Result Exception (LogEntry R V) × LogReader
  extract_typed header_buffer none r = (ok no_entry, r)
  extract_typed header_buffer (some t) r =
      extract_data t (signed64 (little_endian (copy_backwards header_buffer 8 8)))
        (signed32 (little_endian (copy_backwards header_buffer 16 4)))
        (record r { entry_type_counts = count_entry t r.entry_type_counts })

  -- The body after the sixteen bytes of the header have been asked for.
  unfoldable pub extract_after_header :
      List ℕ → LogReader → Result Exception (LogEntry R V) × LogReader
  extract_after_header header_buffer r =
      if length header_buffer == 0
      then (ok no_entry, r)
      else if not (length header_buffer == 16)
      then (ok no_entry, r)
      else extract_typed header_buffer
          (entry_type_of (signed32 (little_endian (copy_backwards header_buffer 12 4)))) r

  unfoldable pub extract_next_entry : LogReader → Result Exception (LogEntry R V) × LogReader
  extract_next_entry r =
      let (header_buffer, s) = read 16 r.input_stream in
      extract_after_header header_buffer (record r { input_stream = s })

  unfoldable pub round : LogReader → Round R V
  round r =
      if r.input_stream.eof
      then returns none r
      else let (result, r') = extract_next_entry r in after_extract result r'

  -- At most `fuel` rounds of the loop; `none` if it has not returned by then.
  unfoldable pub get_next_message : ℕ → LogReader → Option (Option (LogEntry R V) × LogReader)
  get_next_message zero r = none
  get_next_message (suc fuel) r = elim (round r) [
    | returns entry r' ↦ some (entry, r')
    | continues r' ↦ get_next_message fuel r'
  ]
