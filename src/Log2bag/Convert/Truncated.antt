-- ===== src/Log2bag/Convert/Truncated.antt =====
-- log2bag on a log that was cut off, as by a recorder that was stopped.
use ssl_ros_bridge.Prelude.{
  ℕ, ◌+◌, ◌≤◌, ◌<◌, ◌≡◌, refl, inl, inr, some, List, [], ◌++◌, arith, length, take, All,
  length-take, take_add-append,
}
use ssl_ros_bridge.Log2bag.Reader.{
  Counts, count_entry, round, continues, after_extract, expected_header,
}
use ssl_ros_bridge.Log2bag.Format.{Logged, write_entries, write_log, Fits, messages}
use ssl_ros_bridge.Log2bag.Format.Counting.{tally}
use ssl_ros_bridge.Log2bag.Format.CutEntry.{
  cut_entry, IsCut, whole, whole-Fits, take-write_entries, extract_next_entry_cut,
}
use ssl_ros_bridge.Log2bag.Convert.{Libraries, Output, log2bag, succeeds, stats}
use ssl_ros_bridge.Log2bag.Convert.RoundTrip.{reader, bag_of}
use ssl_ros_bridge.Log2bag.Convert.Logs.{
  exhausted, Translates-exhausted, round_short, log2bag_log, length-rest-le,
}

module _ {R V A B : Type 0} (lib : Libraries R V A B) where
  round_cut :
      (e : Logged) (part : List ℕ) (p : ℕ) (c : Counts)
      → Fits lib.codec e
      → length part < length e.payload
      → round lib.codec (reader (cut_entry e part) p c)
        ≡ continues (exhausted (p + 16 + length part) (count_entry e.kind c))
  unfolding round after_extract
  round_cut e part p c fit less = rw (extract_next_entry_cut lib.codec e fit part less p c)

  log2bag_cut :
      (es : List Logged) (rest : List ℕ) (fuel size : ℕ)
      → All (Fits lib.codec) es
      → IsCut lib.codec rest
      → length (write_entries es rest) + 2 ≤ fuel
      → 0 < size
      → (out : Output) × (counts : Counts) × (log2bag lib fuel 2
            (some (expected_header ++ write_entries es rest))
            (some size)
          ≡ some (succeeds out (stats counts)))
        × (out.bag ≡ bag_of lib (messages lib.codec es))
  log2bag_cut es rest fuel size fits (inl short) h pos_size =
      let (out, f, b) =
        log2bag_log lib es rest fuel size (λ c. c) fits h pos_size
          λ f p c out.
            Translates-exhausted lib size fuel f p (p + length rest) c c rest out
              (omega (arith, length-rest-le es rest)) (round_short lib rest p c short) in
      (out, tally es (λ t. 0), f, b)
  log2bag_cut es rest fuel size fits (inr (e, part, fit, less, eq)) h pos_size =
      let (out, f, b) =
        log2bag_log lib es rest fuel size (count_entry e.kind) fits h pos_size λ f p c out.
          Translates-exhausted lib size fuel f p (p + 16 + length part) c (count_entry e.kind c)
            rest out (omega (arith, length-rest-le es rest))
            (rw eq (round_cut e part p c fit less)) in
      (out, count_entry e.kind (tally es (λ t. 0)), f, b)

  -- Of a log of entries that fit, cut off anywhere behind its header, log2bag with fuel for each byte
  -- translates the entries that are there as a whole, and ends well: the bag holds just their
  -- messages, in order.
  pub log2bag-take :
      (n fuel size : ℕ) (es : List Logged)
      → All (Fits lib.codec) es
      → length (write_log es) ≤ fuel
      → 0 < size
      → (out : Output) × (counts : Counts) × (log2bag lib fuel 2
            (some (take (16 + n) (write_log es)))
            (some size)
          ≡ some (succeeds out (stats counts)))
        × (out.bag ≡ bag_of lib (messages lib.codec (whole n es)))
  unfolding write_log
  log2bag-take n fuel size es fits h pos_size =
      let (rest, eq, cut) = take-write_entries lib.codec n es fits in
      let enough : length (take n (write_entries es [])) + 2 ≤ fuel =
        omega (arith, length-take n (write_entries es [])) in
      rw (take_add-append (16 + n) n expected_header (write_entries es []) refl, eq)
        (log2bag_cut (whole n es) rest fuel size (whole-Fits lib.codec n es fits) cut
          (rw eq at enough) pos_size)
