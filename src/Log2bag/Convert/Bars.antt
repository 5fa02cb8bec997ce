-- ===== src/Log2bag/Convert/Bars.antt =====
-- The progress bar. It is drawn from `tellg()`, which is -1 on a stream that has failed, and its
-- width is a difference of unsigned numbers.
use ssl_ros_bridge.Log2bag.Convert.Total.{open_reader-cases}
use ssl_ros_bridge.Log2bag.Reader.Extent.{extent, extent-read, IsSound, get_next_message-Keeps}
use native.Mathlib.Nat.{div-le_of_le-mul}
use ssl_ros_bridge.Prelude.{
  String, ℕ, zero, suc, ◌+◌, ◌*◌, ◌/◌, ◌%◌, ◌^◌, ◌≤◌, ◌<◌, ◌≡◌, refl, ◌∙◌, inl, inr, Bool-cases,
  Option, none, some, List, [], arith, length, All, All-append, ◌==◌, ok,
}
use ssl_ros_bridge.Log2bag.Stream.{Stream, at}
use ssl_ros_bridge.Log2bag.Reader.{LogEntry, LogReader, get_next_message, check_header}
use ssl_ros_bridge.Log2bag.Convert.{
  Libraries, Output, ProgressBar, Loop, finished, render_progress_bar, Ending, ending, translate,
  translate_entry, log2bag, succeeds, divided_by_zero,
}

-- A bar of twenty characters, of which one is filled for each five percent.
pub record IsFull (b : ProgressBar) : Type 0 where
  pub width : b.filled + b.blanks ≡ 20
  pub filled_of_percent : b.filled ≡ b.percent / 5
  pub percent_le : b.percent ≤ 100

render_progress_bar-IsFull :
    (bytes_read total : ℕ)
    → bytes_read ≤ total
    → 0 < total
    → total * 100 < 2 ^ 64
    → IsFull (render_progress_bar bytes_read total)
unfolding render_progress_bar
render_progress_bar-IsFull bytes_read total le pos_total small =
    let bound : bytes_read * 100 / total ≤ 100 = div-le_of_le-mul total (omega arith) in
    let exact : (bytes_read * 100) % 2 ^ 64 ≡ bytes_read * 100 = omega arith in
    rw exact (omega arith)

module _ {R V A B : Type 0} (lib : Libraries R V A B) where
  bars-translate_entry :
      (total : ℕ) (entry : LogEntry R V) (r : LogReader) (out : Output)
      → IsSound r.input_stream
      → extent r.input_stream ≡ total
      → 0 < total
      → total * 100 < 2 ^ 64
      → All IsFull out.bars
      → All IsFull (translate_entry lib total entry r out).bars
  unfolding translate_entry
  bars-translate_entry total entry r out sound ext pos_total small full =
      rw (sound.no_fail, sound.no_bad)
        (All-append IsFull out.bars _ full (
          render_progress_bar-IsFull r.input_stream.position total (omega arith) pos_total small,
          tt,
        ))

  -- All bars are full at the end of the loop, if they were before.
  abbrev EndsFull : Option Loop → Type 0
  EndsFull none = Unit {0}
  EndsFull (some divided_by_zero) = Unit {0}
  EndsFull (some (finished out r)) = All IsFull out.bars

  translate-EndsFull_step :
      (total rounds fuel : ℕ) (out : Output) (r : LogReader)
      (x : Option (Option (LogEntry R V) × LogReader))
      → total * 100 < 2 ^ 64
      → extent r.input_stream ≡ total
      → All IsFull out.bars
      → get_next_message lib.codec rounds r ≡ x
      → ((out' : Output) (r' : LogReader)
          → extent r'.input_stream ≡ total
          → All IsFull out'.bars
          → EndsFull (translate lib total rounds fuel out' r'))
      → EndsFull (translate lib total rounds (suc fuel) out r)
  unfolding translate
  translate-EndsFull_step total rounds fuel out r none small ext full f rest = rw (f, translate) tt
  translate-EndsFull_step total rounds fuel out r (some (none, r')) small ext full f rest =
      rw (f, translate) full
  translate-EndsFull_step total rounds fuel out r (some (some entry, r')) small ext full f rest =
      let (sound, same) = get_next_message-Keeps lib.codec rounds r r' entry f in
      elim (Bool-cases (total == 0)) [
        | inl z ↦ rw (f, z, translate) tt
        | inr z ↦
            rw (f, z, translate)
              (rest (translate_entry lib total entry r' out) r' (same ∙ ext) (
                bars-translate_entry total entry r' out sound (same ∙ ext) (ground (arith, z)) small
                  full))
      ]

  translate-EndsFull :
      (total rounds fuel : ℕ) (out : Output) (r : LogReader)
      → total * 100 < 2 ^ 64
      → extent r.input_stream ≡ total
      → All IsFull out.bars
      → EndsFull (translate lib total rounds fuel out r)
  unfolding translate
  translate-EndsFull total rounds zero out r small ext full = tt
  translate-EndsFull total rounds (suc fuel) out r small ext full =
      translate-EndsFull_step total rounds fuel out r (get_next_message lib.codec rounds r) small
        ext full refl
        λ out' r' ext' full'. translate-EndsFull total rounds fuel out' r' small ext' full'

  extent-check_header : (s s' : Stream) → check_header s ≡ ok s' → extent s' ≡ extent s
  unfolding check_header
  extent-check_header s s' e = ground (arith, extent-read 16 s)

  abbrev EndingFull : Option Ending → Type 0
  EndingFull (some (succeeds out counts)) = All IsFull out.bars
  EndingFull _ = Unit {0}

  ending-EndingFull : (x : Option Loop) → EndsFull x → EndingFull (ending lib x)
  ending-EndingFull none full = tt
  ending-EndingFull (some divided_by_zero) full = tt
  ending-EndingFull (some (finished out r)) full = full

  log2bag-EndingFull :
      (fuel argc : ℕ) (bytes : List ℕ)
      → length bytes * 100 < 2 ^ 64
      → EndingFull (log2bag lib fuel argc (some bytes) (some (length bytes)))
  unfolding log2bag
  log2bag-EndingFull fuel argc bytes small = elim (Bool-cases (argc == 2)) [
    | inr other ↦ rw other tt
    | inl two ↦ elim (open_reader-cases lib (at bytes 0)) [
      | inl (x, f) ↦ rw (two, f, log2bag) tt
      | inr (r, f, g) ↦
          rw (two, f, log2bag)
            (ending-EndingFull
              (translate lib (length bytes) fuel fuel (record { bag = []; bars = [] }) r)
              (translate-EndsFull (length bytes) fuel fuel (record { bag = []; bars = [] }) r small
                (omega (arith, extent-check_header (at bytes 0) r.input_stream g)) tt))
    ]
  ]

  -- On any file whose size is known and a hundred times that size fits an `uintmax_t`, every bar
  -- that a successful log2bag has drawn is twenty characters wide, one filled for each five percent,
  -- and shows at most 100 percent.
  pub log2bag-IsFull :
      (fuel argc : ℕ) (bytes : List ℕ) {out : Output} {counts : List (String × ℕ)}
      → length bytes * 100 < 2 ^ 64
      → log2bag lib fuel argc (some bytes) (some (length bytes)) ≡ some (succeeds out counts)
      → All IsFull out.bars
  log2bag-IsFull fuel argc bytes small e = rw e at (log2bag-EndingFull fuel argc bytes small)
