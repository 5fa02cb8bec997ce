-- ===== src/Log2bag/Bytes.antt =====
-- Integers as bytes. The reader copies bytes out of a buffer backwards, through `rend() - k`, onto
-- the bytes of an integer of a little-endian host; a writer of the format puts them big-endian.
pub mod Windows
use Prim.Native.Nat.{pred}
use native.Mathlib.Nat.{pow-suc}
use ssl_ros_bridge.Prelude.{
  ℕ, zero, suc, ◌+◌, ◌*◌, ◌/◌, ◌%◌, ◌^◌, ◌<◌, ◌≡◌, refl, List, [], ◌∷◌, ◌++◌, arith, get_or, length,
  All,
}

-- `std::copy_n(buffer.rend() - k, n, …)`: the elements k - 1, k - 2, … of the buffer.
unfoldable pub copy_backwards : List ℕ → ℕ → ℕ → List ℕ
copy_backwards buffer k zero = []
copy_backwards buffer k (suc n) = get_or buffer (pred k) 0 ∷ copy_backwards buffer (pred k) n

-- The number whose bytes in memory these are.
unfoldable pub little_endian : List ℕ → ℕ
little_endian [] = 0
little_endian (b ∷ bs) = b + 256 * little_endian bs

-- The n low bytes of a number, the lowest first.
unfoldable pub low_bytes : ℕ → ℕ → List ℕ
low_bytes zero v = []
low_bytes (suc n) v = v % 256 ∷ low_bytes n (v / 256)

-- The same, the lowest last, in front of `rest`.
unfoldable pub big_endian : ℕ → ℕ → List ℕ → List ℕ
big_endian zero v rest = rest
big_endian (suc n) v rest = big_endian n (v / 256) (v % 256 ∷ rest)

pub little_endian-low_bytes : (n v : ℕ) → v < 256 ^ n → little_endian (low_bytes n v) ≡ v
unfolding little_endian low_bytes
little_endian-low_bytes zero v h = omega arith
little_endian-low_bytes (suc n) v h =
    let small : v < 256 * 256 ^ n = omega (arith, pow-suc 256 n) in
    omega (arith, little_endian-low_bytes n (v / 256) (omega arith))

pub big_endian-append :
    (n v : ℕ) (xs ys : List ℕ) → big_endian n v xs ++ ys ≡ big_endian n v (xs ++ ys)
unfolding big_endian
big_endian-append zero v xs ys = refl
big_endian-append (suc n) v xs ys = big_endian-append n (v / 256) (v % 256 ∷ xs) ys

pub length-big_endian : (n v : ℕ) (xs : List ℕ) → length (big_endian n v xs) ≡ n + length xs
unfolding big_endian
length-big_endian zero v xs = omega arith
length-big_endian (suc n) v xs = omega (arith, length-big_endian n (v / 256) (v % 256 ∷ xs))

-- Every element is a byte.
abbrev pub IsBytes : List ℕ → Type 0
IsBytes = All (λ b. b < 256)
