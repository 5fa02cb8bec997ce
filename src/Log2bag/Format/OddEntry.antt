-- ===== src/Log2bag/Format/OddEntry.antt =====
-- Entries that the reader does not take as the format has them: a type that it does not know, and a
-- size that is negative as an `int32_t`.
use ssl_ros_bridge.Prelude.{
  ℕ, suc, ◌+◌, ◌-◌, ◌^◌, ◌≤◌, ◌<◌, ◌≡◌, none, some, List, ◌++◌, arith, signed32, negsuc,
}
use ssl_ros_bridge.Log2bag.Stream.{at, read, read_exact}
use ssl_ros_bridge.Log2bag.Bytes.{little_endian-low_bytes}
use ssl_ros_bridge.Log2bag.Reader.{
  EntryType, Codec, Counts, raw_value, entry_type_of, count_entry, continues, returns, extract_data,
  extract_typed, extract_after_header, extract_next_entry, after_extract, round, get_next_message,
}
use ssl_ros_bridge.Log2bag.Reader.Loop.{get_next_message_now}
use ssl_ros_bridge.Log2bag.Format.OneEntry.{
  entry_header, type_field, size_field, length-entry_header, raw_value-lt, entry_type_of-raw_value,
}

entry_type_of-unrecognized : (code : ℕ) → 6 < code → entry_type_of (signed32 code) ≡ none
unfolding entry_type_of
entry_type_of-unrecognized code h = ground arith

signed32-large : (n : ℕ) → 2 ^ 31 ≤ n → (k : ℕ) × (signed32 n ≡ negsuc k)
signed32-large n h = (2 ^ 32 - n - 1, ground arith)

module _ {R V : Type 0} (codec : Codec R V) (time size : ℕ) (rest : List ℕ) (p : ℕ)
    (c : Counts) where
  read_header_odd :
      (code : ℕ)
      → read 16 (at (entry_header time code size ++ rest) p)
        ≡ (entry_header time code size, at rest (p + 16))
  unfolding entry_header
  read_header_odd code = read_exact (entry_header time code size) rest p

  -- Of an entry with a type above 6 the reader passes the header only, and counts nothing: it goes on
  -- as if the entry's data were the next entry, whatever size the header says.
  pub round_unrecognized :
      (code : ℕ)
      → 6 < code
      → code < 2 ^ 32
      → round codec (record {
        input_stream = at (entry_header time code size ++ rest) p;
        entry_type_counts = c;
      })
        ≡ continues (record { input_stream = at rest (p + 16); entry_type_counts = c })
  unfolding round extract_next_entry extract_after_header extract_typed after_extract
  round_unrecognized code h lt = rw (
    read_header_odd code,
    extract_after_header,
    length-entry_header time code size,
    type_field time code size,
    little_endian-low_bytes 4 code lt,
    entry_type_of-unrecognized code h,
  )

  round_negative :
      (t : EntryType)
      → 2 ^ 31 ≤ size
      → size < 2 ^ 32
      → round codec (record {
        input_stream = at (entry_header time (raw_value t) size ++ rest) p;
        entry_type_counts = c;
      })
        ≡ returns none
            (record { input_stream = at rest (p + 16); entry_type_counts = count_entry t c })
  unfolding round extract_next_entry extract_after_header extract_typed extract_data after_extract
  round_negative t h lt = rw (
    read_header_odd (raw_value t),
    extract_after_header,
    length-entry_header time (raw_value t) size,
    type_field time (raw_value t) size,
    little_endian-low_bytes 4 (raw_value t) (raw_value-lt t),
    entry_type_of-raw_value t,
    size_field time (raw_value t) size,
    little_endian-low_bytes 4 size lt,
    (signed32-large size h).1,
  )

  -- An entry of a known type whose size is 2^31 or more ends the reading, with all that follows the
  -- header unread: `GetNextMessage` catches the exception of the allocation and returns nothing.
  pub get_next_message_negative :
      (t : EntryType) (fuel : ℕ)
      → 2 ^ 31 ≤ size
      → size < 2 ^ 32
      → get_next_message codec (suc fuel) (record {
        input_stream = at (entry_header time (raw_value t) size ++ rest) p;
        entry_type_counts = c;
      })
        ≡ some
            (none, record { input_stream = at rest (p + 16); entry_type_counts = count_entry t c })
  get_next_message_negative t fuel h lt =
      get_next_message_now codec (suc fuel) _ _ none (omega arith) (round_negative t h lt)
