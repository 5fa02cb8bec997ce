-- ===== src/Log2bag/Playback/Tests.antt =====
-- log2bag on the log of Tests.antt, its referee messages read back.
use ssl_ros_bridge.Prelude.{ℕ, ◌≡◌, refl, Option, none, some, List, [], ◌∷◌, arith, map, All, leb}
use ssl_ros_bridge.Conversion.Examples.{plain, plain-IsExact, message}
use ssl_ros_bridge.Conversion.Referees.{Referee, RefereeMsg, referee_from_proto}
use ssl_ros_bridge.Log2bag.Bytes.{big_endian}
use ssl_ros_bridge.Log2bag.Reader.{Codec}
use ssl_ros_bridge.Log2bag.Format.{
  write_entry, write_entries, write_log, Fits, messages, summary, said,
}
use ssl_ros_bridge.Log2bag.Convert.{Libraries, Output, log2bag, succeeds}
use ssl_ros_bridge.Log2bag.Playback.{libraries, logged_referees, played, remembered, log2bag-played}
use ssl_ros_bridge.Log2bag.Tests.{parse_some, entries}

-- A parser that takes the first byte for the counter of the command, and a format that keeps it.
abbrev numbered : ℕ → Referee
numbered n = record message { command_counter = n }

abbrev parse_numbered : List ℕ → Option Referee
parse_numbered [] = none
parse_numbered (byte ∷ bytes) = some (numbered byte)

abbrev numbered_codec : Codec Referee (List ℕ)
numbered_codec = record {
  parse_referee = parse_numbered;
  parse_wrapper = parse_some;
  allocates = λ n. leb n 1_000_000;
}

abbrev write_number : RefereeMsg → List ℕ
write_number m = m.command_counter ∷ []

abbrev read_number : List ℕ → RefereeMsg
read_number [] = referee_from_proto plain message
read_number (n ∷ rest) = referee_from_proto plain (numbered n)

abbrev numbered_libraries : Libraries Referee (List ℕ) RefereeMsg (List ℕ)
numbered_libraries = libraries numbered_codec plain (λ m. m) write_number (λ m. m)

numbered_fit : All (Fits numbered_codec) entries
numbered_fit = ground arith

log2bag-played_example :
    (out : Output) × (log2bag numbered_libraries 200 2 (some (write_log entries)) (some 84)
      ≡ some (succeeds out (summary entries)))
    × (played read_number out.bag
        ≡ map remembered (logged_referees (messages numbered_codec entries)))
unfolding write_log write_entries write_entry big_endian messages said logged_referees
    referee_from_proto
log2bag-played_example =
    log2bag-played numbered_codec plain (λ m. m) write_number (λ m. m) read_number plain-IsExact
      entries 200 84 numbered_fit (omega arith) (omega arith)
      (((omega arith, omega arith), refl), tt)
