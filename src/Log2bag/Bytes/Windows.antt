-- ===== src/Log2bag/Bytes/Windows.antt =====
-- The reversed copies of log_reader.cpp against big-endian numbers as one reads them: from the front,
-- each byte after 256 times what came before it.
use Prim.Native.Nat.{pred}
use ssl_ros_bridge.Prelude.{
  ℕ, zero, suc, ◌+◌, ◌*◌, ◌≤◌, ◌<◌, ◌≡◌, refl, ap, List, [], ◌∷◌, ◌++◌, arith, length, take, drop,
  get_or, length-drop,
}
use ssl_ros_bridge.Log2bag.Bytes.{copy_backwards, little_endian}

unfoldable pub number_of : ℕ → List ℕ → ℕ
number_of n [] = n
number_of n (byte ∷ bytes) = number_of (256 * n + byte) bytes

number_of-append :
    (n : ℕ) (bytes : List ℕ) (byte : ℕ)
    → number_of n (bytes ++ (byte ∷ [])) ≡ 256 * number_of n bytes + byte
unfolding number_of
number_of-append n [] byte = refl
number_of-append n (b ∷ bytes) byte = number_of-append (256 * n + b) bytes byte

take-suc :
    (n : ℕ) (xs : List ℕ) → n < length xs → take (suc n) xs ≡ take n xs ++ (get_or xs n 0 ∷ [])
take-suc n [] h = absurd (omega (arith, h))
take-suc zero (x ∷ xs) h = refl
take-suc (suc n) (x ∷ xs) h = ap (λ (ys : List ℕ). x ∷ ys) (take-suc n xs (omega arith))

get_or-drop : (m n : ℕ) (xs : List ℕ) → get_or (drop m xs) n 0 ≡ get_or xs (m + n) 0
get_or-drop zero n xs = ap (λ i. get_or xs i 0) (omega arith)
get_or-drop (suc m) n [] = refl
get_or-drop (suc m) n (x ∷ xs) =
    let next : suc m + n ≡ suc (m + n) = omega arith in rw next (get_or-drop m n xs)

-- A window that is one longer has one element more.
take-suc-drop :
    (m n : ℕ) (xs : List ℕ)
    → m + n < length xs
    → take (suc n) (drop m xs) ≡ take n (drop m xs) ++ (get_or xs (m + n) 0 ∷ [])
take-suc-drop m n xs h =
    rw (take-suc n (drop m xs) (omega (arith, length-drop m xs)), get_or-drop m n xs)

-- The bytes copied backwards from the end of a window, taken as a little-endian number as the machine
-- does, are the big-endian number that stands in the window, if it lies within the buffer.
pub little_endian-copy_backwards :
    (buffer : List ℕ) (offset width : ℕ)
    → offset + width ≤ length buffer
    → little_endian (copy_backwards buffer (offset + width) width)
      ≡ number_of 0 (take width (drop offset buffer))
unfolding little_endian copy_backwards number_of
little_endian-copy_backwards buffer offset zero h = refl
little_endian-copy_backwards buffer offset (suc n) h =
    let last : pred (offset + suc n) ≡ offset + n = omega arith in
    rw
      (
        last,
        take-suc-drop offset n buffer (omega arith),
        number_of-append 0 (take n (drop offset buffer)) (get_or buffer (offset + n) 0),
        little_endian-copy_backwards buffer offset n (omega arith),
      )
      (omega arith)
