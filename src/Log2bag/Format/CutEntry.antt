-- ===== src/Log2bag/Format/CutEntry.antt =====
-- An entry of which the last bytes are missing, and a log cut off at any place.
use ssl_ros_bridge.Prelude.{
  ℕ, ◌+◌, ◌-◌, ◌<◌, ◌≡◌, refl, ◌∙◌, ap, ◌⊎◌, inl, inr, true, false, Bool-cases, List, [], ◌∷◌, ◌++◌,
  arith, length, take, some, ok, pos, leb, if◌then◌else◌, signed64, All, length-take,
  take_add-append, take-nil,
}
use ssl_ros_bridge.Log2bag.Stream.{at, read, read_exact, read_short}
use ssl_ros_bridge.Log2bag.Bytes.{little_endian-low_bytes}
use ssl_ros_bridge.Log2bag.Reader.{
  Codec, LogReader, Counts, raw_value, count_entry, no_entry, extract_data, extract_typed,
  extract_after_header, extract_next_entry,
}
use ssl_ros_bridge.Log2bag.Format.{Logged, write_entry, write_entries, Fits}
use ssl_ros_bridge.Log2bag.Format.OneEntry.{
  entry_header, write_entry_lem, type_field, time_field, size_field, length-entry_header,
  signed32-small, raw_value-lt, entry_type_of-raw_value,
}

-- The entry's header, and less of its data than there should be.
abbrev pub cut_entry : Logged → List ℕ → List ℕ
cut_entry e part = entry_header e.time (raw_value e.kind) (length e.payload) ++ part

module _ {R V : Type 0} (codec : Codec R V) (e : Logged) (fits : Fits codec e) (part : List ℕ)
    (less : length part < length e.payload) where
  abbrev reader_at_end : ℕ → Counts → LogReader
  reader_at_end p c = record {
    input_stream = record {
      rest = [];
      position = p + length part;
      eof = true;
      fail = true;
      bad = false;
    };
    entry_type_counts = c;
  }

  extract_data_cut :
      (p : ℕ) (c : Counts)
      → extract_data codec e.kind
          (signed64 e.time)
          (pos (length e.payload))
          (record { input_stream = at part p; entry_type_counts = c })
        ≡ (ok no_entry, reader_at_end p c)
  unfolding extract_data
  extract_data_cut p c =
      rw (fits.allocated, read_short (length e.payload) part p less) (ground arith)

  extract_typed_cut :
      (p : ℕ) (c : Counts)
      → extract_typed codec
          (entry_header e.time (raw_value e.kind) (length e.payload))
          (some e.kind)
          (record { input_stream = at part p; entry_type_counts = c })
        ≡ (ok no_entry, reader_at_end p (count_entry e.kind c))
  unfolding extract_typed
  extract_typed_cut p c =
      rw
        (
          time_field e.time (raw_value e.kind) (length e.payload),
          size_field e.time (raw_value e.kind) (length e.payload),
          little_endian-low_bytes 8 e.time fits.time_fits,
          little_endian-low_bytes 4 (length e.payload) (omega (arith, fits.size_fits)),
          signed32-small (length e.payload) fits.size_fits,
        )
        (extract_data_cut p (count_entry e.kind c))

  read_header_cut :
      (p : ℕ)
      → read 16 (at (cut_entry e part) p)
        ≡ (entry_header e.time (raw_value e.kind) (length e.payload), at part (p + 16))
  unfolding entry_header
  read_header_cut p = read_exact (entry_header e.time (raw_value e.kind) (length e.payload)) part p

  pub extract_next_entry_cut :
      (p : ℕ) (c : Counts)
      → extract_next_entry codec
          (record { input_stream = at (cut_entry e part) p; entry_type_counts = c })
        ≡ (ok no_entry, reader_at_end (p + 16) (count_entry e.kind c))
  unfolding extract_next_entry extract_after_header
  extract_next_entry_cut p c =
      rw
        (
          read_header_cut p,
          extract_after_header,
          length-entry_header e.time (raw_value e.kind) (length e.payload),
          type_field e.time (raw_value e.kind) (length e.payload),
          little_endian-low_bytes 4 (raw_value e.kind) (raw_value-lt e.kind),
          entry_type_of-raw_value e.kind,
        )
        (extract_typed_cut (p + 16) c)

-- The entries that lie whole within the first n bytes.
unfoldable pub whole : ℕ → List Logged → List Logged
whole n [] = []
whole n (e ∷ es) =
    let size = 16 + length e.payload in
    let rest = whole (n - size) es in if leb size n then e ∷ rest else []

module _ {R V : Type 0} (codec : Codec R V) where
  -- Bytes that are not a whole entry.
  abbrev pub IsCut : List ℕ → Type 0
  IsCut rest =
      (length rest < 16)
      ⊎ ((e : Logged) × (part : List ℕ) × Fits codec e
          × (length part < length e.payload)
          × (rest ≡ cut_entry e part))

  pub whole-Fits : (n : ℕ) (es : List Logged) → All (Fits codec) es → All (Fits codec) (whole n es)
  unfolding whole
  whole-Fits n [] fits = tt
  whole-Fits n (e ∷ es) (fit, fits) = elim (Bool-cases (leb (16 + length e.payload) n)) [
    | inl h ↦ rw h (fit, whole-Fits (n - (16 + length e.payload)) es fits)
    | inr h ↦ rw h tt
  ]

  take-write_entry :
      (n k : ℕ) (e : Logged) (ys : List ℕ)
      → n ≡ 16 + length e.payload + k
      → take n (write_entry e ys) ≡ write_entry e (take k ys)
  take-write_entry n k e ys h =
      rw (write_entry_lem e ys, write_entry_lem e (take k ys))
        (take_add-append n (length e.payload + k)
            (entry_header e.time (raw_value e.kind) (length e.payload)) (e.payload ++ ys)
            (omega (arith, length-entry_header e.time (raw_value e.kind) (length e.payload)))
          ∙ ap (λ l. entry_header e.time (raw_value e.kind) (length e.payload) ++ l)
              (take_add-append (length e.payload + k) k e.payload ys refl))

  IsCut-take :
      (n : ℕ) (e : Logged) (ys : List ℕ)
      → Fits codec e
      → n < 16 + length e.payload
      → IsCut (take n (write_entry e ys))
  IsCut-take n e ys fit h = elim (Bool-cases (leb 16 n)) [
    | inl more ↦ inr (
      e,
      take (n - 16) (e.payload ++ ys),
      fit,
      ground (arith, length-take (n - 16) (e.payload ++ ys)),
      rw (write_entry_lem e ys) (
          take_add-append n (n - 16) (entry_header e.time (raw_value e.kind) (length e.payload))
            (e.payload ++ ys)
            (ground (arith, length-entry_header e.time (raw_value e.kind) (length e.payload)))),
    )
    | inr less ↦ inl (ground (arith, length-take n (write_entry e ys)))
  ]

  -- Any number of first bytes of a log are some whole entries and a cut one.
  pub take-write_entries :
      (n : ℕ) (es : List Logged)
      → All (Fits codec) es
      → (rest : List ℕ) × (take n (write_entries es []) ≡ write_entries (whole n es) rest)
        × IsCut rest
  unfolding whole write_entries
  take-write_entries n [] fits = ([], take-nil n, inl (omega arith))
  take-write_entries n (e ∷ es) (fit, fits) =
      let size = 16 + length e.payload in
      elim (Bool-cases (leb size n)) [
        | inl h ↦
            let (rest, eq, cut) = take-write_entries (n - size) es fits in
            (
              rest,
              rw (h, write_entries)
                  (take-write_entry n (n - size) e (write_entries es []) (ground arith)
                    ∙ ap (write_entry e) eq),
              cut,
            )
        | inr h ↦ rw h (
          take n (write_entry e (write_entries es [])),
          refl,
          IsCut-take n e (write_entries es []) fit (ground arith),
        )
      ]
