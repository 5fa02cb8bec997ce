-- ===== src/Log2bag/Reader/Header.antt =====
-- `CheckHeader`: which files the reader takes.
use ssl_ros_bridge.Prelude.{
  ℕ, ◌+◌, ◌≤◌, ◌<◌, ◌≡◌, ◌≢◌, refl, true, false, List, [], ◌∷◌, ◌++◌, arith, length, ok, err,
  Bool-cases, inl, inr, false, take, length-take, drop, ltb, take-append-drop, sym, ap, ◌∙◌, ◌⊎◌,
}
use ssl_ros_bridge.Log2bag.Stream.{at, read_exact, read_enough, read_short}
use ssl_ros_bridge.Log2bag.Reader.{
  expected_header, equal, check_header, short_header, unsupported_format,
}

equal_sound : (xs ys : List ℕ) → equal xs ys ≡ true → xs ≡ ys
unfolding equal
equal_sound [] [] e = refl
equal_sound [] (y ∷ ys) e = cc
equal_sound (x ∷ xs) [] e = cc
equal_sound (x ∷ xs) (y ∷ ys) e = ground (arith, equal_sound xs ys)

not_equal : (xs : List ℕ) → xs ≢ expected_header → equal xs expected_header ≡ false
not_equal xs ne = elim (Bool-cases (equal xs expected_header)) [
  | inl e ↦ absurd (ne (equal_sound xs expected_header e))
  | inr e ↦ e
]

wrong_header :
    (bytes : List ℕ) (p : ℕ)
    → 16 ≤ length bytes
    → take 16 bytes ≢ expected_header
    → check_header (at bytes p) ≡ err unsupported_format
unfolding check_header
wrong_header bytes p h ne =
    rw (read_enough 16 bytes p h, not_equal (take 16 bytes) ne)
      (ground (arith, length-take 16 bytes))

differ :
    (bytes : List ℕ)
    → equal (take 16 bytes) expected_header ≡ false
    → take 16 bytes ≢ expected_header
unfolding equal
differ bytes h e =
    let yes_equal : equal expected_header expected_header ≡ true = refl in
    absurd (ground (arith, (rw e at h)))

pub check_header_good :
    (rest : List ℕ) (p : ℕ) → check_header (at (expected_header ++ rest) p) ≡ ok (at rest (p + 16))
unfolding check_header equal
check_header_good rest p = rw (read_exact expected_header rest p)

-- On a stream in good order, one of three: fewer than sixteen bytes are left, and `CheckHeader` says
-- that the header is short; the stream begins with the expected header, and `CheckHeader` succeeds
-- and has passed it; or the sixteen bytes differ from it, and the format is called unsupported.
pub check_header_cases :
    (bytes : List ℕ) (p : ℕ)
    → ((length bytes < 16) × (check_header (at bytes p) ≡ err short_header))
      ⊎ ((rest : List ℕ) × (bytes ≡ expected_header ++ rest)
          × (check_header (at bytes p) ≡ ok (at rest (p + 16))))
      ⊎ ((16 ≤ length bytes)
          × (take 16 bytes ≢ expected_header)
          × (check_header (at bytes p) ≡ err unsupported_format))
unfolding check_header
check_header_cases bytes p = elim (Bool-cases (ltb (length bytes) 16)) [
  | inl h ↦ inl (ground arith, rw (read_short 16 bytes p (ground arith)) (ground arith))
  | inr h ↦ elim (Bool-cases (equal (take 16 bytes) expected_header)) [
    | inl e ↦
        let whole : bytes ≡ expected_header ++ drop 16 bytes =
          sym (take-append-drop 16 bytes) ∙ ap (λ l. l ++ drop 16 bytes) (equal_sound _ _ e) in
        inr (inl (drop 16 bytes, whole, rw whole (check_header_good (drop 16 bytes) p)))
    | inr e ↦
        inr
          (inr (ground arith, differ bytes e, wrong_header bytes p (ground arith) (differ bytes e)))
  ]
]
