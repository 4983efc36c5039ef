-- ===== src/Text.antt =====
-- The functions of the C library on texts that the programs use, on texts without their null byte.
use industrial_control.Prelude.{
  ℕ, ◌+◌, ◌-◌, ◌*◌, ◌≡◌, refl, arith, Bool, true, false, ◌&&◌, [], ◌∷◌, leb, ◌==◌, if◌then◌else◌,
  Bytes,
}

abbrev pub is_digit : ℕ → Bool
is_digit c = leb b'0' c && leb c b'9'

-- The value of the leading digits, behind those that `acc` stands for.
unfoldable pub atoi_from : ℕ → Bytes → ℕ
atoi_from acc [] = acc
atoi_from acc (c ∷ cs) =
    let rest = atoi_from (acc * 10 + (c - b'0')) cs in if is_digit c then rest else acc

-- `atoi` of a text that starts with a digit or with no number at all. C defines it for a number
-- that is an `int`.
unfoldable pub atoi : Bytes → ℕ
unfolding atoi_from
atoi cs = atoi_from 0 cs

-- `!strcmp( a, b )`
unfoldable pub str_equal : Bytes → Bytes → Bool
str_equal [] [] = true
str_equal (a ∷ as') (b ∷ bs) = a == b && str_equal as' bs
str_equal _ _ = false

-- Texts that compare equal are equal.
pub str_equal_sound : (a b : Bytes) → str_equal a b ≡ true → a ≡ b
unfolding str_equal
str_equal_sound [] [] h = refl
str_equal_sound [] (y ∷ b) h = cc
str_equal_sound (x ∷ a) [] h = cc
str_equal_sound (x ∷ a) (y ∷ b) h = ground (arith, str_equal_sound a b)
