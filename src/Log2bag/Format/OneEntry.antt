-- ===== src/Log2bag/Format/OneEntry.antt =====
-- One entry of a log: `extract_next_entry` reads what a writer wrote.
use ssl_ros_bridge.Prelude.{
  ℕ, ◌+◌, ◌^◌, ◌<◌, ◌≡◌, refl, List, [], ◌++◌, Option, none, some, arith, length, length-append, ok,
  pos, signed32, signed64,
}
use ssl_ros_bridge.Log2bag.Stream.{at, read, read_exact}
use ssl_ros_bridge.Log2bag.Bytes.{big_endian, low_bytes, copy_backwards, little_endian-low_bytes}
use ssl_ros_bridge.Log2bag.Reader.{
  EntryType, blank, unknown, vision2010, refbox2013, vision2014, vision_tracker2020, index2021,
  raw_value, entry_type_of, Codec, Message, monostate, referee, wrapper, parse_message, Counts,
  count_entry, extract_data, extract_typed, extract_after_header, extract_next_entry,
}
use ssl_ros_bridge.Log2bag.Format.{Logged, write_entry, Fits, as_entry, type_number, said, accepted}

pub entry_type_of-raw_value : (t : EntryType) → entry_type_of (signed32 (raw_value t)) ≡ some t
unfolding entry_type_of
entry_type_of-raw_value blank = refl
entry_type_of-raw_value unknown = refl
entry_type_of-raw_value vision2010 = refl
entry_type_of-raw_value refbox2013 = refl
entry_type_of-raw_value vision2014 = refl
entry_type_of-raw_value vision_tracker2020 = refl
entry_type_of-raw_value index2021 = refl

pub raw_value-lt : (t : EntryType) → raw_value t < 256 ^ 4
raw_value-lt blank = omega arith
raw_value-lt unknown = omega arith
raw_value-lt vision2010 = omega arith
raw_value-lt refbox2013 = omega arith
raw_value-lt vision2014 = omega arith
raw_value-lt vision_tracker2020 = omega arith
raw_value-lt index2021 = omega arith

pub signed32-small : (n : ℕ) → n < 2 ^ 31 → signed32 n ≡ pos n
signed32-small n h = ground arith

-- The sixteen bytes in front of the data.
unfoldable pub entry_header : ℕ → ℕ → ℕ → List ℕ
unfolding big_endian
entry_header time kind size = big_endian 8 time (big_endian 4 kind (big_endian 4 size []))

module _ (time kind size : ℕ) where
  pub type_field : copy_backwards (entry_header time kind size) 12 4 ≡ low_bytes 4 kind
  unfolding entry_header copy_backwards low_bytes
  type_field = refl

  pub time_field : copy_backwards (entry_header time kind size) 8 8 ≡ low_bytes 8 time
  unfolding entry_header copy_backwards low_bytes
  time_field = refl

  pub size_field : copy_backwards (entry_header time kind size) 16 4 ≡ low_bytes 4 size
  unfolding entry_header copy_backwards low_bytes
  size_field = refl

  pub length-entry_header : length (entry_header time kind size) ≡ 16
  unfolding entry_header
  length-entry_header = refl

pub raw_value-type_number : (t : EntryType) → type_number t ≡ raw_value t
raw_value-type_number blank = refl
raw_value-type_number unknown = refl
raw_value-type_number vision2010 = refl
raw_value-type_number refbox2013 = refl
raw_value-type_number vision2014 = refl
raw_value-type_number vision_tracker2020 = refl
raw_value-type_number index2021 = refl

pub write_entry_lem :
    (e : Logged) (rest : List ℕ)
    → write_entry e rest
      ≡ entry_header e.time (raw_value e.kind) (length e.payload) ++ (e.payload ++ rest)
unfolding write_entry entry_header big_endian
write_entry_lem e rest = rw (raw_value-type_number e.kind) refl

module _ {R V : Type 0} (codec : Codec R V) where
  as_message :
      {M : Type 0} (f : M → Message R V) (o : Option M)
      → elim o [ none ↦ monostate | some m ↦ f m ] ≡ accepted f o
  as_message f none = refl
  as_message f (some m) = refl

  parse_message-said :
      (t : EntryType) (bytes : List ℕ) → parse_message codec t bytes ≡ said codec t bytes
  unfolding parse_message said
  parse_message-said blank bytes = refl
  parse_message-said unknown bytes = refl
  parse_message-said vision2010 bytes = refl
  parse_message-said refbox2013 bytes = as_message referee (codec.parse_referee bytes)
  parse_message-said vision2014 bytes = as_message wrapper (codec.parse_wrapper bytes)
  parse_message-said vision_tracker2020 bytes = refl
  parse_message-said index2021 bytes = refl

  extract_data_lem :
      (e : Logged) (rest : List ℕ) (p : ℕ) (c : Counts)
      → Fits codec e
      → extract_data codec e.kind
          (signed64 e.time)
          (pos (length e.payload))
          (record { input_stream = at (e.payload ++ rest) p; entry_type_counts = c })
        ≡ (
          ok (as_entry codec e),
          record { input_stream = at rest (p + length e.payload); entry_type_counts = c },
        )
  unfolding extract_data
  extract_data_lem e rest p c fits =
      rw (fits.allocated, read_exact e.payload rest p, parse_message-said e.kind e.payload)
        (ground arith)

  read_header :
      (e : Logged) (rest : List ℕ) (p : ℕ)
      → read 16 (at (write_entry e rest) p) ≡ (
        entry_header e.time (raw_value e.kind) (length e.payload),
        at (e.payload ++ rest) (p + 16),
      )
  unfolding entry_header
  read_header e rest p =
      rw (write_entry_lem e rest) (
        read_exact (entry_header e.time (raw_value e.kind) (length e.payload)) (e.payload ++ rest)
          p)

  extract_typed_lem :
      (e : Logged) (rest : List ℕ) (p : ℕ) (c : Counts)
      → Fits codec e
      → extract_typed codec
          (entry_header e.time (raw_value e.kind) (length e.payload))
          (some e.kind)
          (record { input_stream = at (e.payload ++ rest) p; entry_type_counts = c })
        ≡ (
          ok (as_entry codec e),
          record {
            input_stream = at rest (p + length e.payload);
            entry_type_counts = count_entry e.kind c;
          },
        )
  unfolding extract_typed
  extract_typed_lem e rest p c fits =
      rw
        (
          time_field e.time (raw_value e.kind) (length e.payload),
          size_field e.time (raw_value e.kind) (length e.payload),
          little_endian-low_bytes 8 e.time fits.time_fits,
          little_endian-low_bytes 4 (length e.payload) (omega (arith, fits.size_fits)),
          signed32-small (length e.payload) fits.size_fits,
        )
        (extract_data_lem e rest p (count_entry e.kind c) fits)

  -- One call reads one entry, whatever follows it.
  pub extract_next_entry-write_entry :
      (e : Logged) (rest : List ℕ) (p : ℕ) (c : Counts)
      → Fits codec e
      → extract_next_entry codec
          (record { input_stream = at (write_entry e rest) p; entry_type_counts = c })
        ≡ (
          ok (as_entry codec e),
          record {
            input_stream = at rest (p + 16 + length e.payload);
            entry_type_counts = count_entry e.kind c;
          },
        )
  unfolding extract_next_entry extract_after_header
  extract_next_entry-write_entry e rest p c fits =
      rw
        (
          read_header e rest p,
          length-entry_header e.time (raw_value e.kind) (length e.payload),
          type_field e.time (raw_value e.kind) (length e.payload),
          little_endian-low_bytes 4 (raw_value e.kind) (raw_value-lt e.kind),
          entry_type_of-raw_value e.kind,
        )
        (extract_typed_lem e rest (p + 16) c fits)

pub length-write_entry :
    (e : Logged) (rest : List ℕ) → length (write_entry e rest) ≡ 16 + length e.payload + length rest
length-write_entry e rest = rw (write_entry_lem e rest) (
    omega (
      arith,
      length-append (entry_header e.time (raw_value e.kind) (length e.payload)) (e.payload ++ rest),
      length-entry_header e.time (raw_value e.kind) (length e.payload),
      length-append e.payload rest,
    ))
