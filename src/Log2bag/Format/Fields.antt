-- ===== src/Log2bag/Format/Fields.antt =====
-- The header of any entry, as log_reader.cpp reads it and as the format says.
use ssl_ros_bridge.Prelude.{
  ℕ, ◌+◌, ◌≡◌, ◌≢◌, refl, ap, subst, ◌∙◌, ◌⊎◌, inl, inr, ℤ, pos, negsuc, Option-cases, none, some,
  List, ◌++◌, arith, length, take, drop, signed32, signed64, ok,
}
use ssl_ros_bridge.Log2bag.Stream.{at, read, read_exact}
use ssl_ros_bridge.Log2bag.Bytes.Windows.{number_of, little_endian-copy_backwards}
use ssl_ros_bridge.Log2bag.Reader.{
  EntryType, blank, unknown, vision2010, refbox2013, vision2014, vision_tracker2020, index2021,
  entry_type_of, Codec, Counts, LogReader, count_entry, no_entry, extract_data, extract_typed,
  extract_after_header, extract_next_entry,
}
use ssl_ros_bridge.Log2bag.Format.{type_number}

-- The big-endian numbers in the header: the time stamp, the type and the size.
abbrev pub time_in : List ℕ → ℤ
time_in header = signed64 (number_of 0 (take 8 (drop 0 header)))

abbrev pub type_in : List ℕ → ℤ
type_in header = signed32 (number_of 0 (take 4 (drop 8 header)))

abbrev pub size_in : List ℕ → ℤ
size_in header = signed32 (number_of 0 (take 4 (drop 12 header)))

-- The reader takes a number for a type exactly if it is that type's.
entry_type_of-type_number : (t : EntryType) → entry_type_of (pos (type_number t)) ≡ some t
unfolding entry_type_of
entry_type_of-type_number blank = refl
entry_type_of-type_number unknown = refl
entry_type_of-type_number vision2010 = refl
entry_type_of-type_number refbox2013 = refl
entry_type_of-type_number vision2014 = refl
entry_type_of-type_number vision_tracker2020 = refl
entry_type_of-type_number index2021 = refl

type_number_sound :
    (n : ℕ) (t : EntryType) → entry_type_of (pos n) ≡ some t → pos n ≡ pos (type_number t)
unfolding entry_type_of
type_number_sound n blank h = ground arith
type_number_sound n unknown h = ground arith
type_number_sound n vision2010 h = ground arith
type_number_sound n refbox2013 h = ground arith
type_number_sound n vision2014 h = ground arith
type_number_sound n vision_tracker2020 h = ground arith
type_number_sound n index2021 h = ground arith

known : (n : ℤ) (t : EntryType) → entry_type_of n ≡ some t → n ≡ pos (type_number t)
unfolding entry_type_of
known (pos n) t h = type_number_sound n t h
known (negsuc n) t h = absurd (ground arith)

entry_type_of-cases :
    (n : ℤ)
    → ((t : EntryType) × (n ≡ pos (type_number t)) × (entry_type_of n ≡ some t))
      ⊎ (((t : EntryType) → n ≢ pos (type_number t)) × (entry_type_of n ≡ none))
entry_type_of-cases n = elim (Option-cases (entry_type_of n)) [
  | inl e ↦
      inr (λ t h. absurd (ground (arith, ap entry_type_of h ∙ entry_type_of-type_number t)), e)
  | inr (t, e) ↦ inl (t, known n t e, e)
]

module _ {R V : Type 0} (codec : Codec R V) where
  -- Sixteen bytes, whatever they are, and what follows them: the reader takes the big-endian numbers at
  -- bytes 0, 8 and 12 for the time stamp, the type and the size. If the second is the number of a type,
  -- an entry of that type is counted and its data asked for, with that time and size; if not, there is
  -- no entry, and nothing but the sixteen bytes is used up.
  pub extract_next_entry_fields :
      (header rest : List ℕ) (p : ℕ) (c : Counts)
      → length header ≡ 16
      → let r : LogReader = record {
        input_stream = at (header ++ rest) p;
        entry_type_counts = c;
      } in
        let r' : LogReader = record { input_stream = at rest (p + 16); entry_type_counts = c } in
        ((t : EntryType) × (type_in header ≡ pos (type_number t))
          × (extract_next_entry codec r
              ≡ extract_data codec t
                  (time_in header)
                  (size_in header)
                  (record r' { entry_type_counts = count_entry t c })))
        ⊎ (((t : EntryType) → type_in header ≢ pos (type_number t))
            × (extract_next_entry codec r ≡ (ok no_entry, r')))
  unfolding extract_next_entry extract_after_header extract_typed
  extract_next_entry_fields header rest p c whole =
      let asked : read 16 (at (header ++ rest) p) ≡ (header, at rest (p + 16)) =
        subst (λ n. read n (at (header ++ rest) p) ≡ (header, at rest (p + n))) whole
          (read_exact header rest p) in
      let time = little_endian-copy_backwards header 0 8 (omega arith) in
      let kind = little_endian-copy_backwards header 8 4 (omega arith) in
      let size = little_endian-copy_backwards header 12 4 (omega arith) in
      elim (entry_type_of-cases (type_in header)) [
        | inl (t, e, f) ↦ inl (t, e, rw (asked, whole, kind, f, time, size) refl)
        | inr (odd, f) ↦ inr (odd, rw (asked, whole, kind, f) refl)
      ]
