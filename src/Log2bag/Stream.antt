-- ===== src/Log2bag/Stream.antt =====
-- The part of `std::istream` that log_reader.cpp uses: an unformatted `read` of n bytes, its
-- `gcount()`, and the state bits. `position` is what `tellg()` reports of a stream that has not
-- failed. `bad` is the bit that a device error sets: the bytes of a device that fails half way are
-- not modelled, a stream on which it has failed is.
use ssl_ros_bridge.Prelude.{
  ℕ, ◌+◌, ◌≡◌, Bool, true, false, not, ◌||◌, List, [], arith, ltb, if◌then◌else◌, length, take,
  drop, length-append, take-append, drop-append, take-all, drop-all, ◌++◌, ◌<◌, ◌≤◌, length-take,
}

pub record Stream : Type 0 where
  pub rest : List ℕ
  pub position : ℕ
  pub eof : Bool
  pub fail : Bool
  pub bad : Bool

abbrev pub good : Stream → Bool
good s = not (s.eof || s.fail || s.bad)

-- The bytes read (as many as `gcount()` says) and the stream after the call. A stream that is not
-- good gives no byte and fails; a good one that ends early gives what it has, and sets both bits.
unfoldable pub read : ℕ → Stream → List ℕ × Stream
read n s =
    if good s
    then (
      take n s.rest,
      record s {
        rest = drop n s.rest;
        position = s.position + length (take n s.rest);
        eof = ltb (length s.rest) n;
        fail = ltb (length s.rest) n;
      },
    )
    else ([], record s { fail = true })

-- A stream with no state bit set, with these bytes to come.
abbrev pub at : List ℕ → ℕ → Stream
at rest position = record {
  rest = rest;
  position = position;
  eof = false;
  fail = false;
  bad = false;
}

-- The whole of a read that the bytes suffice for.
pub read_exact :
    (xs ys : List ℕ) (p : ℕ) → read (length xs) (at (xs ++ ys) p) ≡ (xs, at ys (p + length xs))
unfolding read
read_exact xs ys p = rw (take-append xs ys, drop-append xs ys) (ground (arith, length-append xs ys))

-- A read that they do not suffice for.
pub read_short :
    (n : ℕ) (xs : List ℕ) (p : ℕ)
    → length xs < n
    → read n (at xs p) ≡ (xs, record (at [] (p + length xs)) { eof = true; fail = true })
unfolding read
read_short n xs p h = rw (take-all n xs h, drop-all n xs h) (ground arith)

pub read_enough :
    (n : ℕ) (xs : List ℕ) (p : ℕ)
    → n ≤ length xs
    → read n (at xs p) ≡ (take n xs, at (drop n xs) (p + n))
unfolding read
read_enough n xs p h = ground (arith, length-take n xs)
