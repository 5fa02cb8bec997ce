-- ===== src/Log2bag/Tests.antt =====
-- Runs of the reader and of log2bag on small files, with parsers that take any bytes but those of
-- an empty message.
use ssl_ros_bridge.Prelude.{
  ℕ, ◌*◌, ◌^◌, ◌⊎◌, ◌+◌, ◌≤◌, ◌<◌, ◌≡◌, refl, true, false, Option, none, some, List, [], ◌∷◌, ◌++◌,
  pos, arith, length, take, All, err, ok, inr, leb, ◌≢◌,
}
use ssl_ros_bridge.Log2bag.Stream.{at}
use ssl_ros_bridge.Log2bag.Bytes.{big_endian}
use ssl_ros_bridge.Log2bag.Format.Fields.{time_in, type_in, size_in, extract_next_entry_fields}
use ssl_ros_bridge.Log2bag.Reader.{
  refbox2013, vision2014, index2021, Codec, Counts, LogReader, LogEntry, EntryType,
  extract_next_entry, extract_data, no_entry, count_entry, expected_header, check_header, round,
  continues, get_next_message, short_header, unsupported_format, raw_value,
}
use ssl_ros_bridge.Log2bag.Reader.Header.{check_header_cases}
use ssl_ros_bridge.Log2bag.Reader.Loop.{Ended, get_next_message-Ended, get_next_message_stuck}
use ssl_ros_bridge.Log2bag.Format.{
  Logged, write_entry, write_entries, write_log, Fits, messages, summary, type_number,
}
use ssl_ros_bridge.Log2bag.Format.OneEntry.{entry_header}
use ssl_ros_bridge.Log2bag.Format.CutEntry.{whole}
use ssl_ros_bridge.Log2bag.Format.OddEntry.{round_unrecognized, get_next_message_negative}
use ssl_ros_bridge.Log2bag.Convert.{Libraries, Output, Ending, log2bag, succeeds, stats}
use ssl_ros_bridge.Log2bag.Convert.RoundTrip.{bag_of}
use ssl_ros_bridge.Log2bag.Convert.Logs.{log2bag-write_log}
use ssl_ros_bridge.Log2bag.Convert.Truncated.{log2bag-take}
use ssl_ros_bridge.Log2bag.Convert.Bars.{IsFull, log2bag-IsFull}
use ssl_ros_bridge.Log2bag.Convert.Total.{log2bag-total}

abbrev pub parse_some : List ℕ → Option (List ℕ)
parse_some [] = none
parse_some (b ∷ bs) = some (b ∷ bs)

abbrev codec : Codec (List ℕ) (List ℕ)
codec = record {
  parse_referee = parse_some;
  parse_wrapper = parse_some;
  allocates = λ n. leb n 1_000_000;
}

abbrev lib : Libraries (List ℕ) (List ℕ) (List ℕ) (List ℕ)
lib = record {
  codec = codec;
  referee_from_proto = λ m. m;
  vision_from_proto = λ m. m;
  serialize_referee = λ m. 1 ∷ m;
  serialize_vision = λ m. 2 ∷ m;
}

abbrev pub entries : List Logged
entries =
    record { time = 1000; kind = refbox2013; payload = 7 ∷ 8 ∷ [] }
    ∷ record { time = 1001; kind = index2021; payload = 9 ∷ [] }
    ∷ record { time = 1002; kind = vision2014; payload = [] }
    ∷ record { time = 1003; kind = vision2014; payload = 5 ∷ [] }
    ∷ []

entries_fit : All (Fits codec) entries
entries_fit = ground arith

log2bag-write_log_example :
    (out : Output) × (log2bag lib 200 2 (some (write_log entries)) (some 84)
      ≡ some (succeeds out (summary entries)))
    × (out.bag ≡ bag_of lib (messages codec entries))
unfolding write_log write_entries write_entry big_endian
log2bag-write_log_example =
    log2bag-write_log lib entries 200 84 entries_fit (omega arith) (omega arith)

log2bag-take_example :
    (out : Output) × (counts : Counts) × (log2bag lib 200 2
        (some (take (16 + 30) (write_log entries)))
        (some 46)
      ≡ some (succeeds out (stats counts)))
    × (out.bag ≡ bag_of lib (messages codec (whole 30 entries)))
unfolding write_log write_entries write_entry big_endian
log2bag-take_example = log2bag-take lib 30 200 46 entries entries_fit (omega arith) (omega arith)

log2bag-total_example : (e : Ending) × (log2bag lib 3 2 (some (1 ∷ 2 ∷ [])) (some 2) ≡ some e)
log2bag-total_example = log2bag-total lib 3 2 (some (1 ∷ 2 ∷ [])) (some 2) (omega arith)

abbrev start : List ℕ → LogReader
start bytes = record { input_stream = at bytes 16; entry_type_counts = λ t. 0 }

get_next_message-Ended_example :
    (entry : Option (LogEntry (List ℕ) (List ℕ))) × (r' : LogReader) × (get_next_message codec 2
        (start (1 ∷ []))
      ≡ some (entry, r'))
    × Ended codec (start (1 ∷ [])) entry r'
get_next_message-Ended_example =
    get_next_message-Ended codec 2 (start (1 ∷ [])) (record { fail_is_eof = refl; no_bad = refl })
      (omega arith)

check_header_cases_example :
    ((length expected_header < 16) × (check_header (at expected_header 0) ≡ err short_header))
    ⊎ ((rest : List ℕ) × (expected_header ≡ expected_header ++ rest)
        × (check_header (at expected_header 0) ≡ ok (at rest (0 + 16))))
    ⊎ ((16 ≤ length expected_header)
        × (take 16 expected_header ≢ expected_header)
        × (check_header (at expected_header 0) ≡ err unsupported_format))
check_header_cases_example = check_header_cases expected_header 0

abbrev failed : LogReader
failed = record {
  input_stream = record { rest = 1 ∷ []; position = 16; eof = false; fail = false; bad = true };
  entry_type_counts = λ t. 0;
}

get_next_message_stuck_example : get_next_message codec 9 failed ≡ none
get_next_message_stuck_example = get_next_message_stuck codec 9 failed refl (inr refl)

round_unrecognized_example :
    round codec (start (entry_header 5 7 2 ++ (3 ∷ 4 ∷ [])))
    ≡ continues (record { input_stream = at (3 ∷ 4 ∷ []) (16 + 16); entry_type_counts = λ t. 0 })
round_unrecognized_example =
    round_unrecognized codec 5 2 (3 ∷ 4 ∷ []) 16 (λ t. 0) 7 (omega arith) (omega arith)

get_next_message_negative_example :
    get_next_message codec 1
      (start (entry_header 5 (raw_value refbox2013) 0x8000_0000 ++ (3 ∷ 4 ∷ [])))
    ≡ some (
      none,
      record {
        input_stream = at (3 ∷ 4 ∷ []) (16 + 16);
        entry_type_counts = count_entry refbox2013 (λ t. 0);
      },
    )
get_next_message_negative_example =
    get_next_message_negative codec 5 0x8000_0000 (3 ∷ 4 ∷ []) 16 (λ t. 0) refbox2013 0
      (omega arith) (omega arith)

short : length (write_log entries) ≤ 200
unfolding write_log write_entries write_entry big_endian
short = omega arith

not_empty : 0 < length (write_log entries)
unfolding write_log write_entries write_entry big_endian
not_empty = omega arith

small : length (write_log entries) * 100 < 2 ^ 64
small = omega (arith, short)

converted :
    (out : Output) × (log2bag lib 200 2
        (some (write_log entries))
        (some (length (write_log entries)))
      ≡ some (succeeds out (summary entries)))
    × (out.bag ≡ bag_of lib (messages codec entries))
converted =
    log2bag-write_log lib entries 200 (length (write_log entries)) entries_fit short not_empty

log2bag-IsFull_example : All IsFull converted.0.bars
log2bag-IsFull_example = log2bag-IsFull lib 200 2 (write_log entries) small converted.1

abbrev header : List ℕ
header = 0 ∷ 0 ∷ 0 ∷ 0 ∷ 0 ∷ 0 ∷ 1 ∷ 4 ∷ 0 ∷ 0 ∷ 0 ∷ 3 ∷ 0 ∷ 0 ∷ 0 ∷ 2 ∷ []

abbrev no_counts : Counts
no_counts t = 0

extract_next_entry_fields_example :
    let r : LogReader = record {
      input_stream = at (header ++ (7 ∷ 8 ∷ [])) 16;
      entry_type_counts = no_counts;
    } in
    let r' : LogReader = record {
      input_stream = at (7 ∷ 8 ∷ []) (16 + 16);
      entry_type_counts = no_counts;
    } in
    ((t : EntryType) × (type_in header ≡ pos (type_number t))
      × (extract_next_entry codec r
          ≡ extract_data codec t
              (time_in header)
              (size_in header)
              (record r' { entry_type_counts = count_entry t no_counts })))
    ⊎ (((t : EntryType) → type_in header ≢ pos (type_number t))
        × (extract_next_entry codec r ≡ (ok no_entry, r')))
extract_next_entry_fields_example =
    extract_next_entry_fields codec header (7 ∷ 8 ∷ []) 16 no_counts refl
