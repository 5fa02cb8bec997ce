-- ===== src/Conversion/Fields.antt =====
-- The macros CopyOptional, CopyOptionalStruct and CopyOptionalEnum, and what a field holds. Each is
-- used once on a fresh message, where the array is empty; `v = {x}` makes an array of one element. A
-- float is kept as its bit pattern, and is only copied unless an arithmetic says otherwise.
use ssl_ros_bridge.Prelude.{ℕ, ◌%◌, ◌^◌, Option, none, some, List, [], ◌∷◌, ◌≡◌, refl, map}

abbrev pub Float32 : Type 0
Float32 = ℕ

abbrev pub Float64 : Type 0
Float64 = ℕ

module _ {ℓ} {A : Type ℓ} where
  unfoldable pub copy_optional : Option A → List A
  copy_optional none = []
  copy_optional (some a) = a ∷ []

  -- The getter of an optional field that is not set gives the default.
  abbrev pub or_default : A → Option A → A
  or_default d none = d
  or_default d (some a) = a

  -- What an array says of an optional field: its first element, if it has one.
  abbrev pub first : List A → Option A
  first [] = none
  first (a ∷ rest) = some a

module _ {ℓ κ} {A : Type ℓ} {B : Type κ} where
  unfoldable pub copy_optional_struct : (A → B) → Option A → List B
  copy_optional_struct from_proto none = []
  copy_optional_struct from_proto (some a) = from_proto a ∷ []

-- `static_cast` to `uint8`, from the enumerator's number.
unfoldable pub copy_optional_enum {ℓ} : {A : Type ℓ} → (A → ℕ) → Option A → List ℕ
copy_optional_enum number none = []
copy_optional_enum number (some a) = number a % 2 ^ 8 ∷ []

pub first-copy_optional {ℓ} : {A : Type ℓ} (o : Option A) → first (copy_optional o) ≡ o
unfolding copy_optional
first-copy_optional none = refl
first-copy_optional (some a) = refl

-- The same for a field that is converted, if what undoes the conversion is applied to each element.
pub first-copy_optional_struct {ℓ κ} :
    {A : Type ℓ} {B : Type κ} (from_proto : A → B) (back : B → A)
    → ((a : A) → back (from_proto a) ≡ a)
    → (o : Option A) → first (map back (copy_optional_struct from_proto o)) ≡ o
unfolding copy_optional_struct
first-copy_optional_struct from_proto back undone none = refl
first-copy_optional_struct from_proto back undone (some a) = rw (undone a)
