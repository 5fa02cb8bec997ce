-- ===== src/Log2bag/Format/Counting.antt =====
-- The reader's counters after a log: how many entries of each type it has.
use ssl_ros_bridge.Prelude.{
  ℕ, ◌+◌, ◌%◌, ◌^◌, ◌<◌, ◌≡◌, ap, ◌∙◌, List, [], ◌∷◌, ◌==◌, if◌then◌else◌, arith,
}
use ssl_ros_bridge.Log2bag.Reader.{
  EntryType, blank, unknown, vision2010, refbox2013, vision2014, vision_tracker2020, index2021,
  raw_value, Counts, count_entry,
}
use ssl_ros_bridge.Log2bag.Format.{Logged, type_number, how_many, summary}
use ssl_ros_bridge.Log2bag.Format.OneEntry.{raw_value-type_number}
use ssl_ros_bridge.Log2bag.Convert.{stats}

-- What the reader will have counted.
unfoldable pub tally : List Logged → Counts → Counts
tally [] counts = counts
tally (e ∷ es) counts = tally es (count_entry e.kind counts)

bump :
    (a b c n : ℕ)
    → ((if b == a then (c + 1) % 2 ^ 64 else c) + n) % 2 ^ 64
      ≡ (c + ((if a == b then 1 else 0) + n)) % 2 ^ 64
bump a b c n = ground arith

count_entry_lem :
    (t u : EntryType) (counts : Counts) (n : ℕ)
    → (count_entry t counts u + n) % 2 ^ 64
      ≡ (counts u + ((if type_number t == type_number u then 1 else 0) + n)) % 2 ^ 64
unfolding count_entry
count_entry_lem t u counts n =
    rw (raw_value-type_number t, raw_value-type_number u)
      (bump (raw_value t) (raw_value u) (counts u) n)

count_entry-lt :
    (t u : EntryType) (counts : Counts) → counts u < 2 ^ 64 → count_entry t counts u < 2 ^ 64
unfolding count_entry
count_entry-lt t u counts small = ground arith

tally_lem :
    (es : List Logged) (counts : Counts) (t : EntryType)
    → counts t < 2 ^ 64
    → tally es counts t ≡ (counts t + how_many t es) % 2 ^ 64
unfolding tally how_many
tally_lem [] counts t small = ground arith
tally_lem (e ∷ es) counts t small =
    tally_lem es (count_entry e.kind counts) t (count_entry-lt e.kind t counts small)
    ∙ count_entry_lem e.kind t counts (how_many t es)

zero_add : (n : ℕ) → 0 + n ≡ n
zero_add n = omega arith

from_the_start : (es : List Logged) (t : EntryType) → tally es (λ u. 0) t ≡ how_many t es % 2 ^ 64
from_the_start es t =
    tally_lem es (λ u. 0) t (omega arith) ∙ ap (λ n. n % 2 ^ 64) (zero_add (how_many t es))

-- The lines printed after a log that was read from the start are its summary.
pub stats-tally : (es : List Logged) → stats (tally es (λ t. 0)) ≡ summary es
unfolding stats
stats-tally es = rw (
  from_the_start es refbox2013,
  from_the_start es vision2014,
  from_the_start es blank,
  from_the_start es unknown,
  from_the_start es vision2010,
  from_the_start es vision_tracker2020,
  from_the_start es index2021,
)
