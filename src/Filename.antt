-- ===== src/Filename.antt =====
-- `unique_filename` of Printer-Emulator/utils.c, with the `strftime` format that it uses.
pub mod Laws
use industrial_control.Prelude.{
  ℕ, zero, suc, ◌+◌, ◌-◌, ◌/◌, ◌%◌, ◌^◌, Bool, true, false, Option, none, some, [], ◌∷◌, ◌++◌, leb,
  ltb, if◌then◌else◌, Bytes, length, take,
}

-- The fields of `struct tm` that the format reads.
pub record Tm : Type 0 where
  pub tm_year : ℕ
  pub tm_mon : ℕ
  pub tm_mday : ℕ
  pub tm_hour : ℕ
  pub tm_min : ℕ
  pub tm_sec : ℕ

abbrev digit : ℕ → ℕ
digit n = b'0' + n % 10

-- Two decimal digits, as `%m`, `%d`, `%H`, `%M` and `%S` write them.
unfoldable pub two_digits : ℕ → Bytes
two_digits n = digit (n / 10) ∷ digit n ∷ []

-- The decimal digits of a number, in front of `rest`; the fuel is at least the number.
decimal_onto : ℕ → ℕ → Bytes → Bytes
decimal_onto zero n rest = rest
decimal_onto (suc fuel) n rest =
    let more = decimal_onto fuel (n / 10) (digit n ∷ rest) in
    if ltb n 10 then digit n ∷ rest else more

-- `%Y`.
unfoldable pub decimal : ℕ → Bytes
unfolding decimal_onto
decimal n = decimal_onto (suc n) n []

-- The text that `strftime` writes for "%Y%m%d%H%M%S".
unfoldable pub time_text : Tm → Bytes
time_text tm =
    decimal (tm.tm_year + 1900)
    ++ two_digits (tm.tm_mon + 1)
    ++ two_digits tm.tm_mday
    ++ two_digits tm.tm_hour
    ++ two_digits tm.tm_min
    ++ two_digits tm.tm_sec

-- `strftime`: 0 and no usable text if the text and its end do not fit in `max`.
unfoldable pub strftime : ℕ → Tm → Option Bytes
strftime max tm = if leb (length (time_text tm) + 1) max then some (time_text tm) else none

-- `name_sz - base_len`, which C computes in `size_t`: a base that is longer than the array leaves,
-- by the wrap, more room than there is memory.
abbrev pub room_behind : ℕ → ℕ → ℕ
room_behind base_len name_sz =
    if leb base_len name_sz then name_sz - base_len else 2 ^ 64 + name_sz - base_len

-- The name, and the return value as `true` for 0. `local` is what `localtime` returns. Where
-- `strftime` returns 0 the rest of the name is unspecified; the model then leaves the base.
unfoldable pub unique_filename : Bytes → Bytes → ℕ → Option Tm → Bytes × Bool
unique_filename base name_out name_sz none = (name_out ++ base, false)
unique_filename base name_out name_sz (some tm) =
    elim (strftime (room_behind (length base) name_sz) tm) [
      | none ↦ (name_out ++ base, false)
      | some text ↦ (take (length base) (name_out ++ base) ++ text, true)
    ]
