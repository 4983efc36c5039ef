-- ===== src/Capture/Scan.antt =====
-- `getline` and `sscanf` with "%2hhx", as the reader of capture files uses them.
use industrial_control.Prelude.{
  ℕ, zero, suc, ◌+◌, ◌-◌, ◌*◌, ◌%◌, Bool, ◌&&◌, ◌||◌, Option, none, some, List, [], ◌∷◌, leb, ◌==◌,
  if◌then◌else◌, Bytes,
}

-- A byte in front of the first line.
abbrev pub onto_line : ℕ → List Bytes → List Bytes
onto_line c [] = (c ∷ []) ∷ []
onto_line c (l ∷ ls) = (c ∷ l) ∷ ls

-- What `getline` returns, call by call: each line with its newline, and the rest of the file.
unfoldable pub lines : Bytes → List Bytes
lines [] = []
lines (c ∷ cs) = let rest = lines cs in if c == 0x0A then (c ∷ []) ∷ rest else onto_line c rest

-- `isspace`
unfoldable pub is_space : ℕ → Bool
is_space c = c == b' ' || leb 9 c && leb c 13

unfoldable pub skip_space : Bytes → Bytes
unfolding is_space
skip_space [] = []
skip_space (c ∷ cs) = let rest = skip_space cs in if is_space c then rest else c ∷ cs

-- The value of a hexadecimal digit.
unfoldable pub digit_value : ℕ → Option ℕ
digit_value c =
    if leb b'0' c && leb c b'9'
    then some (c - b'0')
    else if leb b'A' c && leb c b'F'
    then some (c - b'A' + 10)
    else if leb b'a' c && leb c b'f'
    then some (c - b'a' + 10)
    else none

-- The second character of a field that begins with the digit `high`. Behind a 0 an x makes a prefix
-- with no digit.
unfoldable pub second_digit : ℕ → Bytes → Option (ℕ × Bytes)
unfolding digit_value
second_digit high [] = some (high, [])
second_digit high (c ∷ cs) =
    if high == 0 && (c == b'x' || c == b'X')
    then none
    else elim (digit_value c) [ none ↦ some (high, c ∷ cs) | some low ↦ some (high * 16 + low, cs) ]

-- The digit behind a sign.
unfoldable pub signed_digit : Bool → Bytes → Option (ℕ × Bytes)
unfolding digit_value
signed_digit negative [] = none
signed_digit negative (c ∷ cs) = elim (digit_value c) [
  | none ↦ none
  | some d ↦ some ((if negative then (256 - d) % 256 else d), cs)
]

-- A field of at most two characters.
unfoldable pub scan_field : Bytes → Option (ℕ × Bytes)
unfolding second_digit signed_digit
scan_field [] = none
scan_field (c ∷ cs) =
    if c == b'+' || c == b'-'
    then signed_digit (c == b'-') cs
    else elim (digit_value c) [ none ↦ none | some high ↦ second_digit high cs ]

unfoldable pub scan_byte : Bytes → Option (ℕ × Bytes)
unfolding scan_field skip_space
scan_byte cs = scan_field (skip_space cs)

abbrev pub zeros : ℕ → Bytes
zeros zero = []
zeros (suc n) = 0 ∷ zeros n

-- `n` fields behind a `memset`: a field that does not match ends the scan and leaves zeros.
unfoldable pub scan : ℕ → Bytes → Bytes
unfolding scan_byte
scan zero cs = []
scan (suc n) cs = elim (scan_byte cs) [ none ↦ zeros (suc n) | some (b, rest) ↦ b ∷ scan n rest ]
