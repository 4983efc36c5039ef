-- ===== src/Filename/Laws.antt =====
-- The names of the data files fit their arrays and differ from second to second.
use industrial_control.Prelude.{
  ℕ, suc, ◌+◌, ◌-◌, ◌/◌, ◌≤◌, ◌<◌, ◌≡◌, refl, sym, ap, ◌∙◌, true, false, none, some, leb,
  if◌then◌else◌, [], ◌∷◌, ◌++◌, arith, Bytes, length, take,
}
use industrial_control.Filename.{
  Tm, digit, two_digits, decimal_onto, decimal, time_text, strftime, unique_filename,
}

-- What the C library guarantees of a broken-down time, with a year of four digits.
pub record IsTime (tm : Tm) : Type 0 where
  pub year_low : 1000 ≤ tm.tm_year + 1900
  pub year_high : tm.tm_year + 1900 < 10000
  pub mon : tm.tm_mon < 12
  pub mday : tm.tm_mday < 32
  pub hour : tm.tm_hour < 24
  pub min : tm.tm_min < 60
  pub sec : tm.tm_sec < 61

abbrev four_digits : ℕ → Bytes
four_digits n = digit (n / 1000) ∷ digit (n / 100) ∷ digit (n / 10) ∷ digit n ∷ []

decimal_onto_four :
    (fuel n : ℕ)
    → 1000 ≤ n
    → n < 10000
    → decimal_onto (suc (suc (suc (suc fuel)))) n [] ≡ four_digits n
unfolding decimal_onto
decimal_onto_four fuel n lo hi = ground arith

decimal_four : (n : ℕ) → 1000 ≤ n → n < 10000 → decimal n ≡ four_digits n
unfolding decimal
decimal_four n lo hi =
    let e : suc n ≡ suc (suc (suc (suc (n - 3)))) = omega arith in
    ap (λ f. decimal_onto f n []) e ∙ decimal_onto_four (n - 3) n lo hi

time_text-length : (tm : Tm) → IsTime tm → length (time_text tm) ≡ 14
unfolding time_text two_digits
time_text-length tm h = rw (decimal_four (tm.tm_year + 1900) h.year_low h.year_high) refl

take_all : (a : Bytes) → take (length a) a ≡ a
take_all [] = refl
take_all (x ∷ a) = ap (◌∷◌ x) (take_all a)

-- The text of a time is written if there are 15 bytes for it and its null byte.
strftime_lem :
    (max : ℕ) (tm : Tm)
    → IsTime tm
    → strftime max tm ≡ (if leb 15 max then some (time_text tm) else none)
unfolding strftime
strftime_lem max tm h = rw (time_text-length tm h) refl

unique_filename_lem :
    (base : Bytes) (name_sz : ℕ) (tm : Tm)
    → IsTime tm
    → length base ≤ name_sz
    → unique_filename base [] name_sz (some tm)
      ≡ (if leb (length base + 15) name_sz then (base ++ time_text tm, true) else (base, false))
unfolding unique_filename
unique_filename_lem base name_sz tm h within =
    let within_leb : leb (length base) name_sz ≡ true = ground (arith, within) in
    let enough : leb 15 (name_sz - length base) ≡ leb (length base + 15) name_sz =
      ground (arith, within) in
    rw (within_leb, strftime_lem (name_sz - length base) tm h, enough, unique_filename)
      (ground (arith, take_all base))

-- Where there is room.
unique_filename_name :
    (base : Bytes) (name_sz : ℕ) (tm : Tm)
    → IsTime tm
    → length base + 15 ≤ name_sz
    → unique_filename base [] name_sz (some tm) ≡ (base ++ time_text tm, true)
unique_filename_name base name_sz tm h room =
    let fits : leb (length base + 15) name_sz ≡ true = ground (arith, room) in
    unique_filename_lem base name_sz tm h (omega (arith, room)) ∙ rw fits refl

four_digits_injective : (a b : ℕ) → a < 10000 → b < 10000 → four_digits a ≡ four_digits b → a ≡ b
four_digits_injective a b p q e = ground arith

two_digits_injective : (a b : ℕ) → a < 100 → b < 100 → two_digits a ≡ two_digits b → a ≡ b
unfolding two_digits
two_digits_injective a b p q e = ground arith

-- The 14 bytes of a time, written out.
abbrev written_out : Tm → Bytes
written_out tm =
    four_digits (tm.tm_year + 1900)
    ++ two_digits (tm.tm_mon + 1)
    ++ two_digits tm.tm_mday
    ++ two_digits tm.tm_hour
    ++ two_digits tm.tm_min
    ++ two_digits tm.tm_sec

time_text-written_out : (tm : Tm) → IsTime tm → time_text tm ≡ written_out tm
unfolding time_text
time_text-written_out tm h = rw (decimal_four (tm.tm_year + 1900) h.year_low h.year_high) refl

written_out_injective : (a b : Tm) → IsTime a → IsTime b → written_out a ≡ written_out b → a ≡ b
unfolding two_digits
written_out_injective a b p q e = ground arith

append_cancel : (base : Bytes) {a b : Bytes} → base ++ a ≡ base ++ b → a ≡ b
append_cancel [] e = e
append_cancel (x ∷ base) e = append_cancel base (ground arith)

-- Where there is room, names of files with the same base are the same only if they were made at the
-- same local time, down to the second. The hour that the clock repeats is not told apart.
pub unique_filename_injective :
    (base : Bytes) (name_sz : ℕ) (a b : Tm)
    → IsTime a
    → IsTime b
    → length base + 15 ≤ name_sz
    → unique_filename base [] name_sz (some a) ≡ unique_filename base [] name_sz (some b)
    → a ≡ b
unique_filename_injective base name_sz a b p q fits e = written_out_injective a b p q (
    sym (time_text-written_out a p)
    ∙ append_cancel base (
        ap (λ r. r.0)
          (sym (unique_filename_name base name_sz a p fits)
            ∙ e
            ∙ (unique_filename_name base name_sz b q fits)))
    ∙ time_text-written_out b q)
